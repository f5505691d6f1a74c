-- ===== src/VarBytes.antt =====
-- common.go: strings and byte arrays behind their length, and readScript of msg_tx.go.
pub mod Transfer
use go_wire.Prelude.{ℕ, String, List, ltb, length, if◌then◌else◌}
use go_wire.Io.{Read, Put, message_error, ◌>>=◌, ◌▸◌, pure, fail, read_full, write}
use go_wire.Limits.{max_message_payload}
use go_wire.VarInt.{read_var_int, write_var_int}

-- the rest of a read of `count` bytes, where no more than `max` are allowed
unfoldable pub bytes_after : String → ℕ → ℕ → Read (List ℕ)
bytes_after name max count =
    if ltb max count then fail (message_error name) else (do b ← read_full count; pure b)

unfoldable pub read_var_bytes : ℕ → Read (List ℕ)
read_var_bytes max_allowed = do count ← read_var_int; bytes_after "ReadVarBytes" max_allowed count

-- a Go string is its bytes
unfoldable pub read_var_string : ℕ → Read (List ℕ)
read_var_string ebs = do
  count ← read_var_int
  bytes_after "ReadVarString" (max_message_payload ebs) count

unfoldable pub read_script : ℕ → Read (List ℕ)
read_script max_allowed = do count ← read_var_int; bytes_after "readScript" max_allowed count

unfoldable pub write_var_bytes : List ℕ → Put
write_var_bytes bytes = write_var_int (length bytes) ▸ write bytes

unfoldable pub write_var_string : List ℕ → Put
write_var_string str = write_var_int (length str) ▸ write str
