-- ===== src/Element/Transfer.antt =====
-- Elements on the wire.
use go_wire.Prelude.{
  ℕ, ◌%◌, ◌^◌, ◌<◌, ◌≡◌, refl, sym, ap, ◌∙◌, List, [], ◌∷◌, length, arith, true, false, All,
  append-nil,
}
use go_wire.Binary.{little, uint8, uint32, uint64, put_uint8, put_uint32, put_uint64}
use go_wire.Binary.Bytes.{length-order_bytes}
use go_wire.Binary.Transfer.{RoundTrips-read_full, RoundTrips-uint_of, Takes-uint_of}
use go_wire.Element.{
  Kind, Value, Values, Fits, AllFit, read_element, write_element, read_elements, write_elements,
  int32, uint32_kind, int64, uint64_kind, bool, uint32_time, int64_time, bytes4, command, ip, hash,
  service_flag, inv_type, bitcoin_net, bloom_update_type, reject_code, uint8_kind,
}
use go_wire.Io.{done, IsByte, read_full}
use go_wire.Io.Codec.{IsCodec}
use go_wire.Io.Reads.{RoundTrips, RoundTrips-bind, RoundTrips-last, RoundTrips-pure}
use go_wire.Io.Takes.{Takes, Takes-bind, Takes-pure, Takes-weaken, Takes-read_full}

pub RoundTrips-uint8 : (v : ℕ) → v < 2 ^ 8 → RoundTrips (put_uint8 v) uint8 v
unfolding put_uint8 uint8
RoundTrips-uint8 v h = RoundTrips-uint_of little 1 v h

pub RoundTrips-uint32 : (v : ℕ) → v < 2 ^ 32 → RoundTrips (put_uint32 little v) (uint32 little) v
unfolding put_uint32 uint32
RoundTrips-uint32 v h = RoundTrips-uint_of little 4 v h

pub RoundTrips-uint64 : (v : ℕ) → v < 2 ^ 64 → RoundTrips (put_uint64 little v) (uint64 little) v
unfolding put_uint64 uint64
RoundTrips-uint64 v h = RoundTrips-uint_of little 8 v h

-- An element of every type that fits its width reads back from what is written.
pub RoundTrips-element :
    (k : Kind) (v : Value k) → Fits k v → RoundTrips (write_element k v) (read_element k) v
unfolding read_element write_element
RoundTrips-element int32 v h = RoundTrips-uint32 v h
RoundTrips-element uint32_kind v h = RoundTrips-uint32 v h
RoundTrips-element int64 v h = RoundTrips-uint64 v h
RoundTrips-element uint64_kind v h = RoundTrips-uint64 v h
RoundTrips-element bool true h = RoundTrips-last _ (RoundTrips-uint8 1 (omega arith)) (λ s. refl)
RoundTrips-element bool false h = RoundTrips-last _ (RoundTrips-uint8 0 (omega arith)) (λ s. refl)
RoundTrips-element uint32_time v h =
    let e : v % 2 ^ 32 ≡ v = omega arith in rw e (RoundTrips-uint32 v h)
RoundTrips-element int64_time v h = RoundTrips-uint64 v h
RoundTrips-element bytes4 v h = RoundTrips-read_full 4 v h.0
RoundTrips-element command v h = RoundTrips-read_full 12 v h.0
RoundTrips-element ip v h = RoundTrips-read_full 16 v h.0
RoundTrips-element hash v h = RoundTrips-read_full 32 v h.0
RoundTrips-element service_flag v h = RoundTrips-uint64 v h
RoundTrips-element inv_type v h = RoundTrips-uint32 v h
RoundTrips-element bitcoin_net v h = RoundTrips-uint32 v h
RoundTrips-element bloom_update_type v h = RoundTrips-uint8 v h
RoundTrips-element reject_code v h = RoundTrips-uint8 v h
RoundTrips-element uint8_kind v h = RoundTrips-uint8 v h

pub RoundTrips-elements :
    (ks : List Kind) (vs : Values ks)
    → AllFit ks vs
    → RoundTrips (write_elements ks vs) (read_elements ks) vs
unfolding read_elements write_elements
RoundTrips-elements [] vs h = RoundTrips-pure vs
RoundTrips-elements (k ∷ ks) (v, vs) h =
    RoundTrips-bind _ (RoundTrips-element k v h.0)
      (RoundTrips-last _ (RoundTrips-elements ks vs h.1) (λ s. refl))

-- The bytes that a value of each type was read from. A bool is read from any byte.
abbrev pub Encodes : (k : Kind) → Value k → List ℕ → Type 0
Encodes bool v bs = length bs ≡ 1
Encodes k v bs = Fits k v × (write_element k v ≡ done bs)

pub Takes-uint8 : Takes uint8 (λ v bs. (v < 2 ^ 8) × (put_uint8 v ≡ done bs))
unfolding put_uint8 uint8
Takes-uint8 = Takes-weaken (Takes-uint_of little 1) (λ v bs i q. (q.0, ap done (sym q.1)))

pub Takes-uint32 : Takes (uint32 little) (λ v bs. (v < 2 ^ 32) × (put_uint32 little v ≡ done bs))
unfolding put_uint32 uint32
Takes-uint32 = Takes-weaken (Takes-uint_of little 4) (λ v bs i q. (q.0, ap done (sym q.1)))

pub Takes-uint64 : Takes (uint64 little) (λ v bs. (v < 2 ^ 64) × (put_uint64 little v ≡ done bs))
unfolding put_uint64 uint64
Takes-uint64 = Takes-weaken (Takes-uint_of little 8) (λ v bs i q. (q.0, ap done (sym q.1)))

pub Takes-array :
    (n : ℕ) → Takes (read_full n) (λ v bs. ((length v ≡ n) × All IsByte v) × (done v ≡ done bs))
Takes-array n =
    Takes-weaken (Takes-read_full n)
      (λ v bs i q. ((ap length q.0 ∙ q.1, rw q.0 i.bytes), ap done q.0))

Takes-uint_of_uint8 : Takes uint8 (λ v bs. length bs ≡ 1)
unfolding uint8
Takes-uint_of_uint8 =
    Takes-weaken (Takes-uint_of little 1)
      (λ v bs i q. ap length q.1 ∙ length-order_bytes little 1 v)

-- What was read as an element of each type is what is written for its value.
pub Takes-element : (k : Kind) → Takes (read_element k) (Encodes k)
unfolding read_element write_element
Takes-element int32 = Takes-uint32
Takes-element uint32_kind = Takes-uint32
Takes-element int64 = Takes-uint64
Takes-element uint64_kind = Takes-uint64
Takes-element bool = Takes-bind (Takes-uint_of_uint8) (λ v bs i q. Takes-pure (rw append-nil q))
Takes-element uint32_time =
    Takes-weaken Takes-uint32
      λ v bs i q. let e : v % 2 ^ 32 ≡ v = omega (arith, q.0) in (q.0, rw e q.1)
Takes-element int64_time = Takes-uint64
Takes-element bytes4 = Takes-array 4
Takes-element command = Takes-array 12
Takes-element ip = Takes-array 16
Takes-element hash = Takes-array 32
Takes-element service_flag = Takes-uint64
Takes-element inv_type = Takes-uint32
Takes-element bitcoin_net = Takes-uint32
Takes-element bloom_update_type = Takes-uint8
Takes-element reject_code = Takes-uint8
Takes-element uint8_kind = Takes-uint8

-- The types whose values and bytes determine one another: all but bool.
abbrev pub IsPlain : Kind → Type 0
IsPlain bool = ⊥
IsPlain _ = Unit {0}

abbrev pub ArePlain : List Kind → Type 0
ArePlain [] = Unit {0}
ArePlain (k ∷ ks) = IsPlain k × ArePlain ks

pub Takes-plain :
    (k : Kind)
    → IsPlain k
    → Takes (read_element k) (λ v bs. Fits k v × (write_element k v ≡ done bs))
Takes-plain bool p = absurd p
Takes-plain k p = Takes-element k

pub Takes-elements :
    (ks : List Kind)
    → ArePlain ks
    → Takes (read_elements ks) (λ vs bs. AllFit ks vs × (write_elements ks vs ≡ done bs))
unfolding read_elements write_elements
Takes-elements [] n = Takes-pure (tt, refl)
Takes-elements (k ∷ ks) n = Takes-bind (Takes-plain k n.0) λ v bs i q.
    Takes-bind (Takes-elements ks n.1)
      λ vs cs j r. Takes-pure ((q.0, r.0), rw (q.1, r.1, append-nil))

pub IsCodec-element : (k : Kind) → IsPlain k → IsCodec (read_element k) (write_element k) (Fits k)
IsCodec-element k p = record { reads_back = RoundTrips-element k; takes = Takes-plain k p }
