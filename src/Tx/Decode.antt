-- ===== src/Tx/Decode.antt =====
-- msg_tx.go: decoding with the script pool. The buffers of the pool are filled before they are read,
-- and every script leaves its buffer in `relocate`.
use go_wire.Prelude.{ℕ, ltb}
use go_wire.Io.{Read, message_error, ◌>>=◌, ◌>>◌, pure, read_full, refuse_if, read_times}
use go_wire.Limits.{max_message_payload, max_tx_in_per_message, max_tx_out_per_message}
use go_wire.Binary.{little, uint32}
use go_wire.VarInt.{read_var_int}
use go_wire.VarBytes.{read_script}
use go_wire.Element.{read_element, int64, uint32_kind}
use go_wire.Tx.Data.{OutPoint, TxIn, TxOut, MsgTx}
use go_wire.Tx.Scripts.{relocate}

unfoldable pub read_out_point : Read OutPoint
read_out_point = do
  hash ← read_full 32
  index ← uint32 little
  pure (record { hash = hash; index = index })

unfoldable pub read_tx_in : ℕ → Read TxIn
read_tx_in ebs = do
  op ← read_out_point
  script ← read_script (max_tx_in_per_message ebs)
  sequence ← read_element uint32_kind
  pure (record { previous_out_point = op; signature_script = script; sequence = sequence })

unfoldable pub read_tx_out : ℕ → Read TxOut
read_tx_out ebs = do
  value ← read_element int64
  script ← read_script (max_message_payload ebs)
  pure (record { value = value; pk_script = script })

-- Everything up to the copying of the scripts.
unfoldable pub read_tx : ℕ → Read MsgTx
read_tx ebs = do
  version ← uint32 little
  in_count ← read_var_int
  refuse_if (ltb (max_tx_in_per_message ebs) in_count) (message_error "MsgTx.Bsvdecode")
  ins ← read_times in_count (read_tx_in ebs)
  out_count ← read_var_int
  refuse_if (ltb (max_tx_out_per_message ebs) out_count) (message_error "MsgTx.Bsvdecode")
  outs ← read_times out_count (read_tx_out ebs)
  lock_time ← uint32 little
  pure (record { version = version; tx_in = ins; tx_out = outs; lock_time = lock_time })

-- Bsvdecode, and Deserialize, which calls it.
unfoldable pub tx_bsv_decode : ℕ → Read MsgTx
tx_bsv_decode ebs = do msg ← read_tx ebs; pure (relocate msg)
