-- ===== src/VarInt/Transfer.antt =====
-- Variable-length integers on the wire.
use native.Mathlib.Decide.{dec_lt}
use go_wire.Prelude.{
  ℕ, suc, ◌%◌, ◌^◌, ◌<◌, ◌≤◌, ◌≡◌, ap, ◌∙◌, List, [], ◌++◌, length, length-append, arith, ◌==◌,
  true, false, append-nil, ltb→le, ==→eq, refl,
}
use go_wire.Binary.{
  little, uint_of, uint8, uint16, uint32, uint64, put_uint8, put_uint16, put_uint32, put_uint64,
  order_bytes, le,
}
use go_wire.Binary.Bytes.{length-order_bytes}
use go_wire.Binary.Transfer.{RoundTrips-uint_of, Takes-uint_of}
use go_wire.Io.{done, ◌▸◌, ok, ◌>>=◌, IsInput, written}
use go_wire.Io.Reads.{RoundTrips, RoundTrips-bind, RoundTrips-last}
use go_wire.Io.Takes.{Takes, Takes-bind, Takes-pure, Takes-fail, Takes-if}
use go_wire.Io.Writes.{Writes}
use go_wire.VarInt.{canonical, var_int_after, read_var_int, write_var_int, var_int_serialize_size}

-- The four forms of the encoding, by the range of the value.
form_1 : (v : ℕ) → v < 0xfd → write_var_int v ≡ done (order_bytes little 1 v)
unfolding write_var_int put_uint8
form_1 v h = let e : v % 2 ^ 8 ≡ v = omega arith in ground arith

form_3 :
    (v : ℕ)
    → 0xfd ≤ v
    → v < 2 ^ 16
    → write_var_int v ≡ done (order_bytes little 1 0xfd) ▸ done (order_bytes little 2 v)
unfolding write_var_int put_uint8 put_uint16
form_3 v l h = let e : v % 2 ^ 16 ≡ v = omega arith in ground arith

form_5 :
    (v : ℕ)
    → 2 ^ 16 ≤ v
    → v < 2 ^ 32
    → write_var_int v ≡ done (order_bytes little 1 0xfe) ▸ done (order_bytes little 4 v)
unfolding write_var_int put_uint8 put_uint32
form_5 v l h = let e : v % 2 ^ 32 ≡ v = omega arith in ground arith

form_9 :
    (v : ℕ)
    → 2 ^ 32 ≤ v
    → write_var_int v ≡ done (order_bytes little 1 0xff) ▸ done (order_bytes little 8 v)
unfolding write_var_int put_uint8 put_uint64
form_9 v l = ground arith

canonical-passes : (m v : ℕ) → m ≤ v → (s : List ℕ) → canonical m v s ≡ ok v s
unfolding canonical
canonical-passes m v h s = ground arith

var_int_wide {ℓ} :
    (P : ℕ → Type ℓ) (v : ℕ)
    → (v < 0xfd → P v)
    → (0xfd ≤ v → v < 2 ^ 16 → P v)
    → (2 ^ 16 ≤ v → v < 2 ^ 32 → P v)
    → (2 ^ 32 ≤ v → P v)
    → P v
var_int_wide P v a b c d = elim (dec_lt v 0xfd) [
  | yes p ↦ a p
  | no p ↦ elim (dec_lt v (2 ^ 16)) [
    | yes q ↦ b (omega arith) q
    | no q ↦ elim (dec_lt v (2 ^ 32)) [ yes r ↦ c (omega arith) r | no r ↦ d (omega arith) ]
  ]
]

-- A 64-bit value reads back from its encoding, whatever follows it.
pub RoundTrips-var_int : (v : ℕ) → v < 2 ^ 64 → RoundTrips (write_var_int v) read_var_int v
unfolding read_var_int uint8 uint16 uint32 uint64 var_int_after
RoundTrips-var_int v h =
    var_int_wide (λ v. RoundTrips (write_var_int v) read_var_int v) v
      (λ p. rw (form_1 v p) (
        RoundTrips-last var_int_after (RoundTrips-uint_of little 1 v (omega arith))
          (λ s. ground arith)))
      (λ p q. rw (form_3 v p q) (
        RoundTrips-bind var_int_after (RoundTrips-uint_of little 1 0xfd (omega arith)) (
          RoundTrips-last (canonical 0xfd) (RoundTrips-uint_of little 2 v q)
            (canonical-passes 0xfd v p))))
      (λ p q. rw (form_5 v p q) (
        RoundTrips-bind var_int_after (RoundTrips-uint_of little 1 0xfe (omega arith)) (
          RoundTrips-last (canonical 0x10000) (RoundTrips-uint_of little 4 v q)
            (canonical-passes 0x10000 v p))))
      (λ p. rw (form_9 v p) (
        RoundTrips-bind var_int_after (RoundTrips-uint_of little 1 0xff (omega arith)) (
          RoundTrips-last (canonical 0x100000000) (RoundTrips-uint_of little 8 v h)
            (canonical-passes 0x100000000 v p))))

-- The encoding is as long as VarIntSerializeSize says.
pub length-write_var_int :
    (v : ℕ) → (bs : List ℕ) × (write_var_int v ≡ done bs) × (length bs ≡ var_int_serialize_size v)
unfolding var_int_serialize_size
length-write_var_int v =
    var_int_wide
      (λ v. (bs : List ℕ) × (write_var_int v ≡ done bs) × (length bs ≡ var_int_serialize_size v)) v
      (λ p. (_, form_1 v p, ground (arith, length-order_bytes little 1 v)))
      (λ p q. (_, form_3 v p q, size_of 2 0xfd v (ground arith)))
      (λ p q. (_, form_5 v p q, size_of 4 0xfe v (ground arith)))
      (λ p. (_, form_9 v p, size_of 8 0xff v (ground arith)))
  where
    size_of :
        (k tag v : ℕ)
        → var_int_serialize_size v ≡ suc k
        → length (order_bytes little 1 tag ++ order_bytes little k v) ≡ var_int_serialize_size v
    size_of k tag v e = omega (
      arith,
      e,
      length-append (order_bytes little 1 tag) (order_bytes little k v),
      length-order_bytes little 1 tag,
      length-order_bytes little k v,
    )

pub Writes-var_int : (v : ℕ) → Writes (write_var_int v) (var_int_serialize_size v)
Writes-var_int v =
    let (bs, e, n) = length-write_var_int v in record { bytes = bs; complete = e; size = n }

-- The value that was read is a uint64, and its encoding is what was read: no value has two.
abbrev pub IsVarInt : ℕ → List ℕ → Type 0
IsVarInt v bs = (v < 2 ^ 64) × (write_var_int v ≡ done bs)

Takes-canonical : (m v : ℕ) {Q : ℕ → List ℕ → Type 0} → (m ≤ v → Q v []) → Takes (canonical m v) Q
unfolding canonical
Takes-canonical m v q = Takes-if _ (λ p. Takes-fail) (λ p. Takes-pure (q (ltb→le v m p)))

Takes-wide :
    (k m tag : ℕ) (ds : List ℕ)
    → 256 ^ k ≤ 2 ^ 64
    → ds ≡ order_bytes little 1 tag
    → ((v : ℕ)
        → m ≤ v
        → v < 256 ^ k
        → write_var_int v ≡ done (order_bytes little 1 tag) ▸ done (order_bytes little k v))
    → Takes (uint_of little k >>= canonical m) (λ v bs. IsVarInt v (ds ++ bs))
Takes-wide k m tag ds le ed form = Takes-bind (Takes-uint_of little k) λ v bs i q.
    Takes-canonical m v λ p. (omega (arith, q.0), rw (ed, q.1, append-nil) (form v p q.0))

small_tag :
    (d : ℕ) → (d == 0xff) ≡ false → (d == 0xfe) ≡ false → (d == 0xfd) ≡ false → d < 256 → d < 0xfd
small_tag d a b c h = ground arith

-- What ReadVarInt took is the encoding that WriteVarInt gives its value.
pub Takes-read_var_int : Takes read_var_int IsVarInt
unfolding read_var_int uint8 uint16 uint32 uint64 var_int_after
Takes-read_var_int = Takes-bind (Takes-uint_of little 1) λ d ds i q.
    let tagged : (t : ℕ) → (d == t) ≡ true → ds ≡ order_bytes little 1 t =
      λ t e. q.1 ∙ ap (order_bytes little 1) (==→eq d t e) in
    Takes-if (d == 0xff)
      (λ e. Takes-wide 8 0x100000000 0xff ds (omega arith) (tagged _ e) (λ v l h. form_9 v l))
      (λ n.
        Takes-if (d == 0xfe)
          (λ e. Takes-wide 4 0x10000 0xfe ds (omega arith) (tagged _ e) (λ v l h. form_5 v l h))
          (λ n'.
            Takes-if (d == 0xfd)
              (λ e. Takes-wide 2 0xfd 0xfd ds (omega arith) (tagged _ e) (λ v l h. form_3 v l h))
              (λ n''.
                Takes-pure (
                  omega (arith, q.0),
                  rw (append-nil, q.1) (form_1 d (small_tag d n n' n'' q.0)),
                ))))

-- If ReadVarInt succeeds on an input of bytes, shorter than 2 ^ 63, then its value is a uint64, and
-- the input begins with the bytes that WriteVarInt writes for the value, followed by what is left:
-- no other encoding of a value is accepted.
pub write_var_int-read_var_int :
    (s : List ℕ) (v : ℕ) (rest : List ℕ)
    → IsInput s
    → read_var_int s ≡ ok v rest
    → (s ≡ written (write_var_int v) ++ rest) × (v < 2 ^ 64)
unfolding written
write_var_int-read_var_int s v rest i e =
    let (bs, es, q) = Takes-read_var_int.at s v rest i e in (rw q.1 es, q.0)

-- The encoding of a 64-bit value as bytes.
pub Bytes-var_int :
    (v : ℕ) → v < 2 ^ 64 → RoundTrips (done (written (write_var_int v))) read_var_int v
unfolding written
Bytes-var_int v h =
    let r = RoundTrips-var_int v h in
    record { bytes = r.bytes; written = rw r.written refl; reads = r.reads }
