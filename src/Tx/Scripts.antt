-- ===== src/Tx/Scripts.antt =====
-- msg_tx.go, the last step of bsvdecode: one buffer is allocated for all scripts, each script is
-- copied into it, and the inputs and outputs are given slices of the buffer.
pub mod Relocate
use go_wire.Prelude.{
  ℕ, zero, suc, ◌+◌, ◌-◌, ◌%◌, ◌^◌, List, [], ◌∷◌, ◌++◌, length, take, drop, replicate, map,
}
use go_wire.Tx.Data.{TxIn, TxOut, MsgTx}

-- the addition of uint64
abbrev pub add64 : ℕ → ℕ → ℕ
add64 a b = (a + b) % 2 ^ 64

-- `copy(buf[offset:], src)`: as many bytes as both hold
unfoldable pub copy_at : List ℕ → ℕ → List ℕ → List ℕ
copy_at [] offset src = []
copy_at (b ∷ buf) zero [] = b ∷ buf
copy_at (b ∷ buf) zero (x ∷ src) = x ∷ copy_at buf zero src
copy_at (b ∷ buf) (suc offset) src = b ∷ copy_at buf offset src

-- The slice `scripts[offset:end:end]` by its two ends, and its bytes in a buffer.
pub record Span : Type 0 where
  pub start : ℕ
  pub stop : ℕ

unfoldable pub slice : List ℕ → Span → List ℕ
slice buf s = take (s.stop - s.start) (drop s.start buf)

-- The state of the two copying loops: the buffer and the offset, with the slices handed out.
pub record Placed : Type 0 where
  pub scripts : List ℕ
  pub offset : ℕ
  pub spans : List Span

-- one loop: over the signature scripts, and then over the public key scripts
unfoldable pub place : List ℕ → ℕ → List (List ℕ) → Placed
place buf offset [] = record { scripts = buf; offset = offset; spans = [] }
place buf offset (script ∷ rest) =
    let end = add64 offset (length script) in
    let later = place (copy_at buf offset script) end rest in
    record later { spans = record { start = offset; stop = end } ∷ later.spans }

-- the sum that the reading loops keep
unfoldable pub total_script_size : ℕ → List (List ℕ) → ℕ
total_script_size total [] = total
total_script_size total (script ∷ rest) = total_script_size (add64 total (length script)) rest

-- The assignments `msg.TxIn[i].SignatureScript = …` and `msg.TxOut[i].PkScript = …`, each by its
-- `set`. The slices share the buffer, so their bytes are those at the end of both loops.
unfoldable pub assign_each {ℓ} :
    {A : Type ℓ} → (A → List ℕ → A) → List ℕ → List A → List Span → List A
assign_each set buf (a ∷ rest) (s ∷ spans) = set a (slice buf s) ∷ assign_each set buf rest spans
assign_each set buf rest spans = []

-- Both loops: the buffer with all scripts, and the slices of the two kinds of script.
pub record Relocated : Type 0 where
  pub scripts : List ℕ
  pub in_spans : List Span
  pub out_spans : List Span

unfoldable pub relocate_scripts : List (List ℕ) → List (List ℕ) → Relocated
relocate_scripts ins outs =
    let total = total_script_size (total_script_size 0 ins) outs in
    let first = place (replicate total 0) 0 ins in
    let second = place first.scripts first.offset outs in
    record { scripts = second.scripts; in_spans = first.spans; out_spans = second.spans }

abbrev pub set_signature_script : TxIn → List ℕ → TxIn
set_signature_script ti script = record ti { signature_script = script }

abbrev pub set_pk_script : TxOut → List ℕ → TxOut
set_pk_script to script = record to { pk_script = script }

abbrev pub signature_scripts : List TxIn → List (List ℕ)
signature_scripts ins = map (λ ti. ti.signature_script) ins

abbrev pub pk_scripts : List TxOut → List (List ℕ)
pk_scripts outs = map (λ to. to.pk_script) outs

abbrev pub in_scripts : MsgTx → List (List ℕ)
in_scripts msg = signature_scripts msg.tx_in

abbrev pub out_scripts : MsgTx → List (List ℕ)
out_scripts msg = pk_scripts msg.tx_out

unfoldable pub relocate : MsgTx → MsgTx
relocate msg =
    let r = relocate_scripts (in_scripts msg) (out_scripts msg) in
    record msg {
      tx_in = assign_each set_signature_script r.scripts msg.tx_in r.in_spans;
      tx_out = assign_each set_pk_script r.scripts msg.tx_out r.out_spans;
    }
