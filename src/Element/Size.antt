-- ===== src/Element/Size.antt =====
-- How many bytes an element takes on the wire.
use go_wire.Prelude.{ℕ, ◌%◌, ◌^◌, ◌≡◌, refl, List, [], ◌∷◌, length, true, false}
use go_wire.Binary.{little, order_bytes, put_uint8, put_uint32, put_uint64}
use go_wire.Binary.Bytes.{length-order_bytes}
use go_wire.Element.{
  Kind, Value, Values, Fits, AllFit, width, write_element, write_elements, int32, uint32_kind,
  int64, uint64_kind, bool, uint32_time, int64_time, bytes4, command, ip, hash, service_flag,
  inv_type, bitcoin_net, bloom_update_type, reject_code, uint8_kind,
}
use go_wire.Io.{done}
use go_wire.Io.Writes.{Writes, Writes-done, Writes-▸, sum_of}

pub Writes-order : (n v : ℕ) → Writes (done (order_bytes little n v)) n
Writes-order n v = record {
  bytes = order_bytes little n v;
  complete = refl;
  size = length-order_bytes little n v;
}

pub Writes-bytes : (n : ℕ) (bs : List ℕ) → length bs ≡ n → Writes (done bs) n
Writes-bytes n bs h = record { bytes = bs; complete = refl; size = h }

pub Writes-uint32 : (v : ℕ) → Writes (put_uint32 little v) 4
unfolding put_uint32
Writes-uint32 v = Writes-order 4 v

pub Writes-uint64 : (v : ℕ) → Writes (put_uint64 little v) 8
unfolding put_uint64
Writes-uint64 v = Writes-order 8 v

-- An element of each type takes its width on the wire.
pub Writes-element : (k : Kind) (v : Value k) → Fits k v → Writes (write_element k v) (width k)
unfolding write_element put_uint8 put_uint32 put_uint64
Writes-element int32 v h = Writes-order 4 v
Writes-element uint32_kind v h = Writes-order 4 v
Writes-element int64 v h = Writes-order 8 v
Writes-element uint64_kind v h = Writes-order 8 v
Writes-element bool true h = Writes-order 1 1
Writes-element bool false h = Writes-order 1 0
Writes-element uint32_time v h = Writes-order 4 (v % 2 ^ 32)
Writes-element int64_time v h = Writes-order 8 v
Writes-element bytes4 v h = Writes-bytes 4 v h.0
Writes-element command v h = Writes-bytes 12 v h.0
Writes-element ip v h = Writes-bytes 16 v h.0
Writes-element hash v h = Writes-bytes 32 v h.0
Writes-element service_flag v h = Writes-order 8 v
Writes-element inv_type v h = Writes-order 4 v
Writes-element bitcoin_net v h = Writes-order 4 v
Writes-element bloom_update_type v h = Writes-order 1 v
Writes-element reject_code v h = Writes-order 1 v
Writes-element uint8_kind v h = Writes-order 1 v

pub Writes-elements :
    (ks : List Kind) (vs : Values ks)
    → AllFit ks vs
    → Writes (write_elements ks vs) (sum_of width ks)
unfolding write_elements sum_of
Writes-elements [] vs h = Writes-done []
Writes-elements (k ∷ ks) (v, vs) h = Writes-▸ (Writes-element k v h.0) (Writes-elements ks vs h.1)
