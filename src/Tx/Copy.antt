-- ===== src/Tx/Copy.antt =====
-- msg_tx.go: MsgTx.Copy, with the copies of scripts and outputs that MsgExtendedTx.Copy makes too.
use go_wire.Prelude.{
  List, arith, true, length, replicate, [], ℕ, ltb, ◌∷◌, suc, map, refl, if◌then◌else◌, ◌≡◌,
}
use go_wire.Tx.Data.{TxOut, MsgTx, TxIn}
use go_wire.Tx.Scripts.{copy_at}
use go_wire.Tx.Scripts.Relocate.{copy-whole}

-- `newScript` in the loops of Copy: a new slice with the bytes of the old one, and nil where it is
-- empty
unfoldable pub copy_script : List ℕ → List ℕ
copy_script old = if ltb 0 (length old) then copy_at (replicate (length old) 0) 0 old else []

unfoldable pub copy_tx_out : TxOut → TxOut
copy_tx_out to = record { value = to.value; pk_script = copy_script to.pk_script }

unfoldable pub tx_copy_in : TxIn → TxIn
tx_copy_in ti = record {
  previous_out_point = ti.previous_out_point;
  signature_script = copy_script ti.signature_script;
  sequence = ti.sequence;
}

unfoldable pub tx_copy : MsgTx → MsgTx
tx_copy msg = record {
  version = msg.version;
  tx_in = map tx_copy_in msg.tx_in;
  tx_out = map copy_tx_out msg.tx_out;
  lock_time = msg.lock_time;
}

pub copy_script_lem : (s : List ℕ) → copy_script s ≡ s
unfolding copy_script
copy_script_lem [] = refl
copy_script_lem (b ∷ s) =
    let some_bytes : ltb 0 (suc (length s)) ≡ true = ground arith in
    rw (some_bytes, copy-whole (suc (length s)) (b ∷ s) refl) refl

pub copy_tx_out_lem : (outs : List TxOut) → map copy_tx_out outs ≡ outs
unfolding copy_tx_out
copy_tx_out_lem [] = refl
copy_tx_out_lem (to ∷ outs) = rw (copy_script_lem to.pk_script, copy_tx_out_lem outs) refl

tx_copy_in_lem : (ins : List TxIn) → map tx_copy_in ins ≡ ins
unfolding tx_copy_in
tx_copy_in_lem [] = refl
tx_copy_in_lem (ti ∷ ins) = rw (copy_script_lem ti.signature_script, tx_copy_in_lem ins) refl

-- A copy has the value of what is copied.
pub tx_copy_lem : (msg : MsgTx) → tx_copy msg ≡ msg
unfolding tx_copy
tx_copy_lem msg = rw (tx_copy_in_lem msg.tx_in, copy_tx_out_lem msg.tx_out) refl
