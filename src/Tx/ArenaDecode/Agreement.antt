-- ===== src/Tx/ArenaDecode/Agreement.antt =====
-- Decoding with an arena gives what decoding with the script pool gives.
use go_wire.Prelude.{
  ℕ, ◌≡◌, ltb, zero, suc, [], inl, if◌then◌else◌, String, Bool-cases, refl, inr, arith, true,
  lt→ltb, List,
}
use go_wire.Arena.{Arena, alloc}
use go_wire.Binary.{uint32, little}
use go_wire.Element.{uint32_kind, read_element, int64}
use go_wire.Io.{refuse_if, pure, read_times, message_error, ◌>>=◌, ◌>>◌, Read, read_full, IsInput}
use go_wire.Io.Agrees.{
  Agrees-same, Agrees, Agrees-bind, Agrees-pure, Agrees-fail, both_ok, Agrees-pass, Matches,
}
use go_wire.Limits.{max_message_payload, max_tx_in_per_message}
use go_wire.Tx.ArenaDecode.{
  read_script_in, read_tx_out_with_arena, read_tx_in_with_arena, read_times_with,
  tx_bsv_decode_with_arena,
}
use go_wire.Tx.Decode.{read_tx_in, read_out_point, read_tx, read_tx_out, tx_bsv_decode}
use go_wire.Tx.Transfer.{tx_bsv_decode-read_tx}
use go_wire.VarBytes.{bytes_after, read_script}
use go_wire.VarInt.{read_var_int}

-- The result beside the arena is the other reader's result.
abbrev pub Beside {ℓ} : {A : Type ℓ} → A × Arena → A → Type ℓ
Beside (a, arena) b = a ≡ b

-- Reading no bytes is no read.
script_bytes-Agrees :
    (n : ℕ) (arena : Arena)
    → Agrees
        ((if ltb 0 n then read_full n else pure []) >>= λ s. pure (s, arena))
        (read_full n >>= λ b. pure b)
        Beside
unfolding read_full
script_bytes-Agrees zero arena = record { at = λ s. both_ok refl }
script_bytes-Agrees (suc n) arena =
    let positive : ltb 0 (suc n) ≡ true = lt→ltb 0 (suc n) (omega arith) in
    rw positive (Agrees-same (read_full (suc n)) _ _ (λ a. Agrees-pure refl))

script_after-Agrees :
    (max n : ℕ) (name name' : String) (arena : Arena)
    → Agrees
        (refuse_if (ltb max n) (message_error name)
          >> ((if ltb 0 n then read_full n else pure []) >>= λ s. pure (s, arena)))
        (bytes_after name' max n)
        Beside
unfolding refuse_if bytes_after
script_after-Agrees max n name name' arena = elim (Bool-cases (ltb max n)) [
  | inl big ↦ rw big (Agrees-fail _ _ refl)
  | inr small ↦ rw small (script_bytes-Agrees n arena)
]

script-Agrees :
    (max : ℕ) (arena : Arena) → Agrees (read_script_in max arena) (read_script max) Beside
unfolding read_script_in read_script
script-Agrees max arena =
    Agrees-same read_var_int _ _
      λ n. script_after-Agrees max n "MsgTx.bsvdecodeWithArena" "readScript" (alloc arena n).0

tx_in-Agrees :
    (ebs : ℕ) (arena : Arena) → Agrees (read_tx_in_with_arena ebs arena) (read_tx_in ebs) Beside
unfolding read_tx_in_with_arena read_tx_in
tx_in-Agrees ebs arena = Agrees-same read_out_point _ _ λ op.
    Agrees-bind _ _ (script-Agrees (max_tx_in_per_message ebs) arena)
      λ p script f. Agrees-same (read_element uint32_kind) _ _ λ sequence. Agrees-pure (cc)

tx_out-Agrees :
    (ebs : ℕ) (arena : Arena) → Agrees (read_tx_out_with_arena ebs arena) (read_tx_out ebs) Beside
unfolding read_tx_out_with_arena read_tx_out
tx_out-Agrees ebs arena = Agrees-same (read_element int64) _ _ λ value.
    Agrees-bind _ _ (script-Agrees (max_message_payload ebs) arena) λ p script f. Agrees-pure (cc)

pub times-Agrees {ℓ} :
    {A : Type ℓ} (m : Arena → Read (A × Arena)) (k : Read A)
    → ((arena : Arena) → Agrees (m arena) k Beside)
    → (n : ℕ) (arena : Arena) → Agrees (read_times_with m n arena) (read_times n k) Beside
unfolding read_times_with read_times
times-Agrees m k h zero arena = Agrees-pure refl
times-Agrees m k h (suc n) arena =
    Agrees-bind _ _ (h arena)
      λ p a e. Agrees-bind _ _ (times-Agrees m k h n p.1) λ q rest f. Agrees-pure (cc)

pub read_tx-Agrees :
    (ebs : ℕ) (arena : Arena) → Agrees (tx_bsv_decode_with_arena ebs arena) (read_tx ebs) Beside
unfolding tx_bsv_decode_with_arena read_tx
read_tx-Agrees ebs arena = Agrees-same (uint32 little) _ _ λ version.
    Agrees-same read_var_int _ _ λ in_count. Agrees-pass _ _ _ refl (
      Agrees-bind _ _ (times-Agrees _ _ (tx_in-Agrees ebs) in_count arena) λ p ins e.
        Agrees-same read_var_int _ _ λ out_count. Agrees-pass _ _ _ refl (
          Agrees-bind _ _ (times-Agrees _ _ (tx_out-Agrees ebs) out_count p.1)
            λ q outs f. Agrees-same (uint32 little) _ _ λ lock_time. Agrees-pure (cc)))

-- On every input of bytes, shorter than 2 ^ 63, and from any arena, the decoder with an arena and the
-- decoder with the script pool both return the same transaction, or both fail, with errors that
-- differ at most in the function that they name; and they leave the same of the input.
pub tx_bsv_decode_with_arena-Matches :
    (ebs : ℕ) (arena : Arena) (s : List ℕ)
    → IsInput s
    → Matches Beside (tx_bsv_decode_with_arena ebs arena s) (tx_bsv_decode ebs s)
tx_bsv_decode_with_arena-Matches ebs arena s i =
    rw (tx_bsv_decode-read_tx ebs s i) ((read_tx-Agrees ebs arena).at s)
