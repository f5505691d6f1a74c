-- ===== src/Binary.antt =====
-- common.go: fixed-width integers (binaryFreeList). Its pool only lends the buffer that a call
-- fills before it reads it, so a value is a function of the bytes alone.
pub mod Bytes
pub mod Transfer
use go_wire.Prelude.{ℕ, zero, suc, ◌+◌, ◌*◌, ◌/◌, ◌%◌, List, [], ◌∷◌}
use mathlib.Core.List.{reverse}
use go_wire.Io.{Read, Put, ◌>>=◌, pure, read_full, write}

pub data ByteOrder : Type 0 where
  little big : ByteOrder

-- The k low bytes of v, lowest first, and the number that such bytes stand for.
unfoldable pub le : ℕ → ℕ → List ℕ
le zero v = []
le (suc k) v = v % 256 ∷ le k (v / 256)

unfoldable pub from_le : List ℕ → ℕ
from_le [] = 0
from_le (b ∷ bs) = b + 256 * from_le bs

-- byteOrder.PutUint16, PutUint32 and PutUint64; byteOrder.Uint16, Uint32 and Uint64
unfoldable pub order_bytes : ByteOrder → ℕ → ℕ → List ℕ
order_bytes little k v = le k v
order_bytes big k v = reverse (le k v)

unfoldable pub of_order : ByteOrder → List ℕ → ℕ
of_order little bs = from_le bs
of_order big bs = from_le (reverse bs)

-- the common shape of the four readers: k bytes into the buffer, then their number
unfoldable pub uint_of : ByteOrder → ℕ → Read ℕ
uint_of order k = do buf ← read_full k; pure (of_order order buf)

unfoldable pub uint8 : Read ℕ
uint8 = uint_of little 1

unfoldable pub uint16 : ByteOrder → Read ℕ
uint16 order = uint_of order 2

unfoldable pub uint32 : ByteOrder → Read ℕ
uint32 order = uint_of order 4

unfoldable pub uint64 : ByteOrder → Read ℕ
uint64 order = uint_of order 8

unfoldable pub put_uint8 : ℕ → Put
put_uint8 val = write (order_bytes little 1 val)

unfoldable pub put_uint16 : ByteOrder → ℕ → Put
put_uint16 order val = write (order_bytes order 2 val)

unfoldable pub put_uint32 : ByteOrder → ℕ → Put
put_uint32 order val = write (order_bytes order 4 val)

unfoldable pub put_uint64 : ByteOrder → ℕ → Put
put_uint64 order val = write (order_bytes order 8 val)
