-- ===== src/ExtendedTx/Decode.antt =====
-- msg_extended_tx.go: decoding. The script of what an input spends stays in a buffer of its own.
use go_wire.Prelude.{◌||◌, ltb, not, List, [], ℕ, ◌==◌, map, ◌∷◌}
use go_wire.Binary.{little, uint32}
use go_wire.Element.{uint64_kind, read_element, uint32_kind}
use go_wire.ExtendedTx.Data.{ExtendedTxIn, MsgExtendedTx}
use go_wire.Io.{
  pure, plain_error, message_error, refuse_if, Read, read_full, read_times, ◌>>◌, ◌>>=◌,
}
use go_wire.Limits.{max_tx_in_per_message, max_tx_out_per_message}
use go_wire.MessageHeader.{same_bytes}
use go_wire.Tx.Decode.{read_tx_out, read_out_point}
use go_wire.Tx.Scripts.{relocate_scripts, assign_each, set_pk_script, pk_scripts}
use go_wire.VarBytes.{read_script}
use go_wire.VarInt.{read_var_int}

unfoldable pub read_extended_tx_in : ℕ → Read ExtendedTxIn
read_extended_tx_in ebs = do
  op ← read_out_point
  script ← read_script (max_tx_in_per_message ebs)
  sequence ← read_element uint32_kind
  satoshis ← read_element uint64_kind
  spent ← read_script (max_tx_in_per_message ebs)
  pure (record {
    previous_out_point = op;
    previous_tx_satoshis = satoshis;
    previous_tx_script = spent;
    signature_script = script;
    sequence = sequence;
  })

abbrev pub ef_header : List ℕ
ef_header = 0x00 ∷ 0x00 ∷ 0x00 ∷ 0x00 ∷ 0xef ∷ []

-- the count of no inputs, and the header behind it
unfoldable pub read_marker : Read (Unit {0})
read_marker = do
  count ← read_var_int
  header ← read_full 5
  refuse_if (not (count == 0) || not (same_bytes header ef_header))
      (plain_error "invalid extended tx EF header")

-- Everything up to the copying of the scripts.
unfoldable pub read_extended_tx : ℕ → Read MsgExtendedTx
read_extended_tx ebs = do
  version ← uint32 little
  read_marker
  in_count ← read_var_int
  refuse_if (ltb (max_tx_in_per_message ebs) in_count) (message_error "MsgTx.Bsvdecode")
  ins ← read_times in_count (read_extended_tx_in ebs)
  out_count ← read_var_int
  refuse_if (ltb (max_tx_out_per_message ebs) out_count) (message_error "MsgTx.Bsvdecode")
  outs ← read_times out_count (read_tx_out ebs)
  lock_time ← uint32 little
  pure (record { version = version; tx_in = ins; tx_out = outs; lock_time = lock_time })

abbrev pub set_extended_script : ExtendedTxIn → List ℕ → ExtendedTxIn
set_extended_script ti script = record ti { signature_script = script }

abbrev pub extended_scripts : List ExtendedTxIn → List (List ℕ)
extended_scripts ins = map (λ ti. ti.signature_script) ins

unfoldable pub relocate_extended : MsgExtendedTx → MsgExtendedTx
relocate_extended msg =
    let r = relocate_scripts (extended_scripts msg.tx_in) (pk_scripts msg.tx_out) in
    record msg {
      tx_in = assign_each set_extended_script r.scripts msg.tx_in r.in_spans;
      tx_out = assign_each set_pk_script r.scripts msg.tx_out r.out_spans;
    }

-- Bsvdecode, and Deserialize, which calls it.
unfoldable pub extended_tx_bsv_decode : ℕ → Read MsgExtendedTx
extended_tx_bsv_decode ebs = do msg ← read_extended_tx ebs; pure (relocate_extended msg)
