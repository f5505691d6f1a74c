-- ===== src/Tx/ArenaDecode.antt =====
-- msg_tx.go: bsvdecodeWithArena, which a block uses for its transactions. Each script is read into
-- a slice of the arena; slices never overlap (Arena/Disjoint), so the bytes that are read into one
-- are the script's from then on. `nil` and an empty script are both the empty list.
pub mod Agreement
use go_wire.Prelude.{List, ◌∷◌, suc, if◌then◌else◌, [], zero, ltb, ℕ}
use go_wire.Arena.{Arena, alloc}
use go_wire.Binary.{little, uint32}
use go_wire.Element.{read_element, uint32_kind, int64}
use go_wire.Io.{message_error, Read, read_full, refuse_if, pure, ◌>>=◌, ◌>>◌}
use go_wire.Limits.{max_tx_in_per_message, max_message_payload, max_tx_out_per_message}
use go_wire.Tx.Data.{TxIn, MsgTx, TxOut}
use go_wire.Tx.Decode.{read_out_point}
use go_wire.VarInt.{read_var_int}

-- a script's length, its check, its slice and its bytes, as in both loops
unfoldable pub read_script_in : ℕ → Arena → Read (List ℕ × Arena)
read_script_in max arena = do
  script_len ← read_var_int
  refuse_if (ltb max script_len) (message_error "MsgTx.bsvdecodeWithArena")
  s ← if ltb 0 script_len then read_full script_len else pure []
  pure (s, (alloc arena script_len).0)

unfoldable pub read_tx_in_with_arena : ℕ → Arena → Read (TxIn × Arena)
read_tx_in_with_arena ebs arena = do
  op ← read_out_point
  (script, arena') ← read_script_in (max_tx_in_per_message ebs) arena
  sequence ← read_element uint32_kind
  pure (record { previous_out_point = op; signature_script = script; sequence = sequence }, arena')

unfoldable pub read_tx_out_with_arena : ℕ → Arena → Read (TxOut × Arena)
read_tx_out_with_arena ebs arena = do
  value ← read_element int64
  (script, arena') ← read_script_in (max_message_payload ebs) arena
  pure (record { value = value; pk_script = script }, arena')

-- a loop whose rounds share the arena
unfoldable pub read_times_with {ℓ} :
    {A : Type ℓ} → (Arena → Read (A × Arena)) → ℕ → Arena → Read (List A × Arena)
read_times_with m zero arena = pure ([], arena)
read_times_with m (suc n) arena = do
  (a, arena') ← m arena
  (rest, arena'') ← read_times_with m n arena'
  pure (a ∷ rest, arena'')

-- bsvdecode with an arena: the version and the count of inputs, and then bsvdecodeWithArena.
unfoldable pub tx_bsv_decode_with_arena : ℕ → Arena → Read (MsgTx × Arena)
tx_bsv_decode_with_arena ebs arena = do
  version ← uint32 little
  in_count ← read_var_int
  refuse_if (ltb (max_tx_in_per_message ebs) in_count) (message_error "MsgTx.Bsvdecode")
  (ins, arena') ← read_times_with (read_tx_in_with_arena ebs) in_count arena
  out_count ← read_var_int
  refuse_if (ltb (max_tx_out_per_message ebs) out_count) (message_error "MsgTx.bsvdecodeWithArena")
  (outs, arena'') ← read_times_with (read_tx_out_with_arena ebs) out_count arena'
  lock_time ← uint32 little
  pure (record { version = version; tx_in = ins; tx_out = outs; lock_time = lock_time }, arena'')
