-- ===== src/ExtendedTx/Encode.antt =====
-- msg_extended_tx.go: encoding, and the sizes and offsets that are computed without encoding.
use go_wire.Prelude.{length, ℕ, ◌∷◌, ◌+◌, List}
use go_wire.Binary.{little, put_uint64, put_uint32}
use go_wire.ExtendedTx.Data.{MsgExtendedTx, ExtendedTxIn}
use go_wire.ExtendedTx.Decode.{ef_header}
use go_wire.Io.{write_each, written, Put, ◌▸◌, write}
use go_wire.Io.Writes.{sum_of}
use go_wire.Tx.Encode.{write_tx_out, script_locs, write_out_point, tx_out_size}
use go_wire.VarBytes.{write_var_bytes}
use go_wire.VarInt.{var_int_serialize_size, write_var_int}

unfoldable pub write_extended_tx_in : ExtendedTxIn → Put
write_extended_tx_in ti =
    write_out_point ti.previous_out_point
    ▸ write_var_bytes ti.signature_script
    ▸ put_uint32 little ti.sequence
    ▸ put_uint64 little ti.previous_tx_satoshis
    ▸ write_var_bytes ti.previous_tx_script

-- BsvEncode, and Serialize, which calls it.
unfoldable pub extended_tx_bsv_encode : MsgExtendedTx → Put
extended_tx_bsv_encode msg =
    put_uint32 little msg.version
    ▸ write (0x00 ∷ ef_header)
    ▸ write_var_int (length msg.tx_in)
    ▸ write_each write_extended_tx_in msg.tx_in
    ▸ write_var_int (length msg.tx_out)
    ▸ write_each write_tx_out msg.tx_out
    ▸ put_uint32 little msg.lock_time

-- TxHash, for the SHA-256 of the standard library.
unfoldable pub extended_tx_hash : (List ℕ → List ℕ) → MsgExtendedTx → List ℕ
extended_tx_hash sha256 msg = sha256 (sha256 (written (extended_tx_bsv_encode msg)))

unfoldable pub extended_tx_in_size : ExtendedTxIn → ℕ
extended_tx_in_size t =
    40
    + var_int_serialize_size (length t.signature_script)
    + length t.signature_script
    + 8
    + var_int_serialize_size (length t.previous_tx_script)
    + length t.previous_tx_script

-- SerializeSize, which is baseSize.
unfoldable pub extended_serialize_size : MsgExtendedTx → ℕ
extended_serialize_size msg =
    8
    + var_int_serialize_size (length msg.tx_in)
    + var_int_serialize_size (length msg.tx_out)
    + sum_of extended_tx_in_size msg.tx_in
    + sum_of tx_out_size msg.tx_out

unfoldable pub extended_pk_script_locs : MsgExtendedTx → List ℕ
extended_pk_script_locs msg =
    script_locs
      (4
        + var_int_serialize_size (length msg.tx_in)
        + var_int_serialize_size (length msg.tx_out)
        + sum_of extended_tx_in_size msg.tx_in)
      msg.tx_out
