-- ===== src/Element.antt =====
-- common.go: readElement and writeElement, which choose the encoding by the type of the element,
-- and readElements and writeElements.
pub mod Transfer
pub mod Size
use go_wire.Prelude.{
  ℕ, ◌%◌, ◌^◌, ◌<◌, ◌≡◌, Bool, true, false, List, [], ◌∷◌, length, All, ◌==◌, not, if◌then◌else◌,
}
use go_wire.Io.{Read, Put, ◌>>=◌, ◌▸◌, pure, read_full, write, IsByte}
use go_wire.Binary.{little, uint8, uint32, uint64, put_uint8, put_uint32, put_uint64}

-- The types that the two switches name; a byte and a FilterType take the fallback to binary.Read
-- and binary.Write. `hash` serves chainhash.Hash by pointer, and by value through the fallback.
-- `uint32_time` and `int64_time` are read as such; their writers pass an integer.
pub data Kind : Type 0 where
  int32 uint32_kind int64 uint64_kind bool uint32_time int64_time bytes4 command ip hash : Kind
  service_flag inv_type bitcoin_net bloom_update_type reject_code uint8_kind : Kind

-- A signed integer is its two's complement bit pattern, and a time is that of its Unix seconds.
abbrev pub Value : Kind → Type 0
Value bool = Bool
Value bytes4 = List ℕ
Value command = List ℕ
Value ip = List ℕ
Value hash = List ℕ
Value _ = ℕ

abbrev pub array_size : Kind → ℕ
array_size bytes4 = 4
array_size command = 12
array_size ip = 16
array_size _ = 32

unfoldable pub read_element : (k : Kind) → Read (Value k)
read_element int32 = uint32 little
read_element uint32_kind = uint32 little
read_element int64 = uint64 little
read_element uint64_kind = uint64 little
read_element bool = do rv ← uint8; pure (if rv == 0x00 then false else true)
read_element uint32_time = uint32 little
read_element int64_time = uint64 little
read_element bytes4 = read_full 4
read_element command = read_full 12
read_element ip = read_full 16
read_element hash = read_full 32
read_element service_flag = uint64 little
read_element inv_type = uint32 little
read_element bitcoin_net = uint32 little
read_element bloom_update_type = uint8
read_element reject_code = uint8
read_element uint8_kind = uint8

-- The writer of a uint32 timestamp is given `uint32(t.Unix())`, the low half of the pattern.
unfoldable pub write_element : (k : Kind) → Value k → Put
write_element int32 e = put_uint32 little e
write_element uint32_kind e = put_uint32 little e
write_element int64 e = put_uint64 little e
write_element uint64_kind e = put_uint64 little e
write_element bool e = if e then put_uint8 0x01 else put_uint8 0x00
write_element uint32_time e = put_uint32 little (e % 2 ^ 32)
write_element int64_time e = put_uint64 little e
write_element bytes4 e = write e
write_element command e = write e
write_element ip e = write e
write_element hash e = write e
write_element service_flag e = put_uint64 little e
write_element inv_type e = put_uint32 little e
write_element bitcoin_net e = put_uint32 little e
write_element bloom_update_type e = put_uint8 e
write_element reject_code e = put_uint8 e
write_element uint8_kind e = put_uint8 e

-- The arguments of a variadic call.
abbrev pub Values : List Kind → Type 0
Values [] = Unit {0}
Values (k ∷ ks) = Value k × Values ks

unfoldable pub read_elements : (ks : List Kind) → Read (Values ks)
read_elements [] = pure tt
read_elements (k ∷ ks) = do v ← read_element k; vs ← read_elements ks; pure (v, vs)

unfoldable pub write_elements : (ks : List Kind) → Values ks → Put
write_elements [] vs = write []
write_elements (k ∷ ks) (v, vs) = write_element k v ▸ write_elements ks vs

-- A value that its Go type can hold; a uint32 time also needs its seconds to fit 32 bits.
abbrev pub Fits : (k : Kind) → Value k → Type 0
Fits int32 v = v < 2 ^ 32
Fits uint32_kind v = v < 2 ^ 32
Fits int64 v = v < 2 ^ 64
Fits uint64_kind v = v < 2 ^ 64
Fits bool v = Unit {0}
Fits uint32_time v = v < 2 ^ 32
Fits int64_time v = v < 2 ^ 64
Fits bytes4 v = (length v ≡ 4) × All IsByte v
Fits command v = (length v ≡ 12) × All IsByte v
Fits ip v = (length v ≡ 16) × All IsByte v
Fits hash v = (length v ≡ 32) × All IsByte v
Fits service_flag v = v < 2 ^ 64
Fits inv_type v = v < 2 ^ 32
Fits bitcoin_net v = v < 2 ^ 32
Fits bloom_update_type v = v < 2 ^ 8
Fits reject_code v = v < 2 ^ 8
Fits uint8_kind v = v < 2 ^ 8

abbrev pub AllFit : (ks : List Kind) → Values ks → Type 0
AllFit [] vs = Unit {0}
AllFit (k ∷ ks) (v, vs) = Fits k v × AllFit ks vs

-- The number of bytes on the wire.
abbrev pub width : Kind → ℕ
width int32 = 4
width uint32_kind = 4
width int64 = 8
width uint64_kind = 8
width bool = 1
width uint32_time = 4
width int64_time = 8
width bytes4 = 4
width command = 12
width ip = 16
width hash = 32
width service_flag = 8
width inv_type = 4
width bitcoin_net = 4
width bloom_update_type = 1
width reject_code = 1
width uint8_kind = 1
