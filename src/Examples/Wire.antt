-- ===== src/Examples/Wire.antt =====
-- Integers, byte arrays, elements and the arena.
use go_wire.Prelude.{◌∷◌, ◌<◌, refl, ◌^◌, ◌≡◌, [], ◌≤◌, ◌++◌, arith}
use go_wire.Arena.{alloc_all, alloc, Arena, new_block_arena_sized}
use go_wire.Arena.Disjoint.{new_block_arena_apart, AllApart, alloc-Served, Served}
use go_wire.Binary.{
  big, uint8, put_uint16, put_uint8, from_le, of_order, uint16, le, uint_of, order_bytes,
}
use go_wire.Io.{err, read_full, ok, written, message_error}
use go_wire.Io.Reads.{RoundTrips}
use go_wire.VarBytes.{bytes_after, read_var_bytes, write_var_bytes}
use go_wire.VarBytes.Transfer.{write_var_bytes-read_var_bytes}
use go_wire.VarInt.{canonical, var_int_after, read_var_int, write_var_int}
use go_wire.VarInt.Transfer.{RoundTrips-var_int, write_var_int-read_var_int}

var_int_300 : written (write_var_int 300) ≡ 0xfd ∷ 0x2c ∷ 0x01 ∷ []
unfolding written write_var_int put_uint8 put_uint16 order_bytes le
var_int_300 = refl

-- 5 in three bytes is refused, and the reader stands behind them.
var_int_padded :
    read_var_int (0xfd ∷ 0x05 ∷ 0x00 ∷ 9 ∷ []) ≡ err (message_error "ReadVarInt") (9 ∷ [])
unfolding read_var_int var_int_after canonical uint8 uint16 uint_of of_order from_le read_full
var_int_padded = refl

read_300 : read_var_int (0xfd ∷ 0x2c ∷ 0x01 ∷ 9 ∷ []) ≡ ok 300 (9 ∷ [])
unfolding read_var_int var_int_after canonical uint8 uint16 uint_of of_order from_le read_full
read_300 = refl

port_big : written (put_uint16 big 8333) ≡ 0x20 ∷ 0x8d ∷ []
unfolding written put_uint16 order_bytes le
port_big = refl

RoundTrips-var_int_example : RoundTrips (write_var_int 300) read_var_int 300
RoundTrips-var_int_example = RoundTrips-var_int 300 (omega arith)

write_var_int-read_var_int_example :
    (0xfd ∷ 0x2c ∷ 0x01 ∷ 9 ∷ [] ≡ written (write_var_int 300) ++ (9 ∷ [])) × (300 < 2 ^ 64)
write_var_int-read_var_int_example =
    write_var_int-read_var_int (0xfd ∷ 0x2c ∷ 0x01 ∷ 9 ∷ []) 300 (9 ∷ [])
      (record { bytes = omega arith; short = omega arith }) read_300

read_two : read_var_bytes 520 (2 ∷ 1 ∷ 2 ∷ 9 ∷ []) ≡ ok (1 ∷ 2 ∷ []) (9 ∷ [])
unfolding read_var_bytes bytes_after read_var_int var_int_after uint8 uint_of of_order from_le
    read_full
read_two = refl

write_var_bytes-read_var_bytes_example :
    (2 ∷ 1 ∷ 2 ∷ 9 ∷ [] ≡ written (write_var_bytes (1 ∷ 2 ∷ [])) ++ (9 ∷ [])) × (2 ≤ 520)
write_var_bytes-read_var_bytes_example =
    write_var_bytes-read_var_bytes 520 (2 ∷ 1 ∷ 2 ∷ 9 ∷ []) (1 ∷ 2 ∷ []) (9 ∷ [])
      (record { bytes = omega arith; short = omega arith }) read_two

abbrev small_arena : Arena
small_arena = new_block_arena_sized 0

alloc-Served_example : Served small_arena 5 (alloc small_arena 5)
unfolding new_block_arena_sized
alloc-Served_example = alloc-Served small_arena 5 (record { known = λ c e. cc })

new_block_arena_apart_example :
    AllApart (alloc_all (new_block_arena_sized 0) (5 ∷ 0 ∷ 4095 ∷ 5000000 ∷ 7 ∷ []))
new_block_arena_apart_example = new_block_arena_apart 0 (5 ∷ 0 ∷ 4095 ∷ 5000000 ∷ 7 ∷ [])
