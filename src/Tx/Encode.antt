-- ===== src/Tx/Encode.antt =====
-- msg_tx.go: encoding, and the sizes and offsets that are computed without encoding.
use go_wire.Prelude.{ℕ, ◌+◌, List, [], ◌∷◌, length}
use go_wire.Io.{Put, ◌▸◌, write, write_each, written}
use go_wire.Io.Writes.{sum_of}
use go_wire.Binary.{little, put_uint32, put_uint64}
use go_wire.VarInt.{write_var_int, var_int_serialize_size}
use go_wire.VarBytes.{write_var_bytes}
use go_wire.Tx.Data.{OutPoint, TxIn, TxOut, MsgTx}

unfoldable pub write_out_point : OutPoint → Put
write_out_point op = write op.hash ▸ put_uint32 little op.index

unfoldable pub write_tx_in : TxIn → Put
write_tx_in ti =
    write_out_point ti.previous_out_point
    ▸ write_var_bytes ti.signature_script
    ▸ put_uint32 little ti.sequence

unfoldable pub write_tx_out : TxOut → Put
write_tx_out to = put_uint64 little to.value ▸ write_var_bytes to.pk_script

-- BsvEncode, and Serialize, which calls it.
unfoldable pub tx_bsv_encode : MsgTx → Put
tx_bsv_encode msg =
    put_uint32 little msg.version
    ▸ write_var_int (length msg.tx_in)
    ▸ write_each write_tx_in msg.tx_in
    ▸ write_var_int (length msg.tx_out)
    ▸ write_each write_tx_out msg.tx_out
    ▸ put_uint32 little msg.lock_time

-- TxHash, for the SHA-256 of the standard library: its digest, fed to it again.
unfoldable pub tx_hash : (List ℕ → List ℕ) → MsgTx → List ℕ
tx_hash sha256 msg = sha256 (sha256 (written (tx_bsv_encode msg)))

unfoldable pub tx_in_size : TxIn → ℕ
tx_in_size t = 40 + var_int_serialize_size (length t.signature_script) + length t.signature_script

unfoldable pub tx_out_size : TxOut → ℕ
tx_out_size t = 8 + var_int_serialize_size (length t.pk_script) + length t.pk_script

-- SerializeSize, which is baseSize.
unfoldable pub serialize_size : MsgTx → ℕ
serialize_size msg =
    8
    + var_int_serialize_size (length msg.tx_in)
    + var_int_serialize_size (length msg.tx_out)
    + sum_of tx_in_size msg.tx_in
    + sum_of tx_out_size msg.tx_out

-- the second loop of PkScriptLocs, from the offset that the first one reached
unfoldable pub script_locs : ℕ → List TxOut → List ℕ
script_locs n [] = []
script_locs n (to ∷ outs) =
    let loc = n + (8 + var_int_serialize_size (length to.pk_script)) in
    loc ∷ script_locs (loc + length to.pk_script) outs

-- `nil` and the empty slice of locations are both the empty list.
unfoldable pub pk_script_locs : MsgTx → List ℕ
pk_script_locs msg =
    script_locs
      (4
        + var_int_serialize_size (length msg.tx_in)
        + var_int_serialize_size (length msg.tx_out)
        + sum_of tx_in_size msg.tx_in)
      msg.tx_out
