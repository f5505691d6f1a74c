-- ===== src/VarInt.antt =====
-- common.go: ReadVarInt, WriteVarInt and VarIntSerializeSize. The protocol version, which they
-- ignore, is left out.
pub mod Transfer
use go_wire.Prelude.{ℕ, ◌%◌, ◌^◌, ltb, leb, ◌==◌, if◌then◌else◌}
use go_wire.Io.{Read, Put, message_error, ◌>>=◌, ◌▸◌, pure, fail}
use go_wire.Binary.{
  little, uint8, uint16, uint32, uint64, put_uint8, put_uint16, put_uint32, put_uint64,
}

-- `rv`, unless it could have been encoded in fewer bytes
unfoldable pub canonical : ℕ → ℕ → Read ℕ
canonical min_val rv = if ltb rv min_val then fail (message_error "ReadVarInt") else pure rv

unfoldable pub var_int_after : ℕ → Read ℕ
var_int_after discriminant =
    if discriminant == 0xff
    then (do sv ← uint64 little; canonical 0x100000000 sv)
    else if discriminant == 0xfe
    then (do sv ← uint32 little; canonical 0x10000 sv)
    else if discriminant == 0xfd
    then (do sv ← uint16 little; canonical 0xfd sv)
    else pure discriminant

unfoldable pub read_var_int : Read ℕ
read_var_int = do discriminant ← uint8; var_int_after discriminant

unfoldable pub write_var_int : ℕ → Put
write_var_int val =
    if ltb val 0xfd
    then put_uint8 (val % 2 ^ 8)
    else if leb val 0xffff
    then put_uint8 0xfd ▸ put_uint16 little (val % 2 ^ 16)
    else if leb val 0xffff_ffff
    then put_uint8 0xfe ▸ put_uint32 little (val % 2 ^ 32)
    else put_uint8 0xff ▸ put_uint64 little val

unfoldable pub var_int_serialize_size : ℕ → ℕ
var_int_serialize_size val =
    if ltb val 0xfd then 1 else if leb val 0xffff then 3 else if leb val 0xffff_ffff then 5 else 9
