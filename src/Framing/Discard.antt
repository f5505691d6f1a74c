-- ===== src/Framing/Discard.antt =====
-- message.go: discardInput, which skips a payload.
use go_wire.Prelude.{
  ◌*◌, suc, ℕ, zero, refl, arith, drop, [], ◌≡◌, ◌+◌, List, ◌∷◌, ◌/◌, ◌%◌, ◌∙◌, ap,
}
use go_wire.Io.{read_full, with_head, Outcome, ok, err}

-- what a call of io.ReadFull whose results are dropped leaves
unfoldable pub left_of {ℓ} : {A : Type ℓ} → Outcome A → List ℕ
left_of (ok a rest) = rest
left_of (err e rest) = rest

abbrev pub discard_size : ℕ
discard_size = 10 * 1024

unfoldable pub discard_times : ℕ → List ℕ → List ℕ
discard_times zero s = s
discard_times (suc n) s = discard_times n (left_of (read_full discard_size s))

unfoldable pub discard_input : ℕ → List ℕ → List ℕ
discard_input n s = left_of (read_full (n % discard_size) (discard_times (n / discard_size) s))

left_of-with_head : (b : ℕ) (o : Outcome (List ℕ)) → left_of (with_head b o) ≡ left_of o
unfolding left_of
left_of-with_head b (ok bs rest) = refl
left_of-with_head b (err e rest) = refl

pub left_of-read_full : (n : ℕ) (s : List ℕ) → left_of (read_full n s) ≡ drop n s
unfolding left_of read_full
left_of-read_full zero s = refl
left_of-read_full (suc n) [] = refl
left_of-read_full (suc n) (b ∷ s) = left_of-with_head b (read_full n s) ∙ left_of-read_full n s

drop-drop : (m n : ℕ) (s : List ℕ) → drop m (drop n s) ≡ drop (n + m) s
drop-drop m zero s = let e : 0 + m ≡ m = omega arith in rw e refl
drop-drop zero (suc n) [] = let e : suc n + 0 ≡ suc n = omega arith in rw e refl
drop-drop (suc m) (suc n) [] = let e : suc n + suc m ≡ suc (n + suc m) = omega arith in rw e refl
drop-drop m (suc n) (b ∷ s) =
    let e : suc n + m ≡ suc (n + m) = omega arith in rw e (drop-drop m n s)

discard_times-drop : (n : ℕ) (s : List ℕ) → discard_times n s ≡ drop (n * discard_size) s
unfolding discard_times
discard_times-drop zero s = refl
discard_times-drop (suc n) s =
    let e : suc n * discard_size ≡ discard_size + n * discard_size = omega arith in
    rw (e, left_of-read_full discard_size s, discard_times-drop n (drop discard_size s))
      (drop-drop (n * discard_size) discard_size s)

-- The chunks of discardInput skip n bytes of the stream, or all of it where it is shorter.
pub discard_input-drop : (n : ℕ) (s : List ℕ) → discard_input n s ≡ drop n s
unfolding discard_input
discard_input-drop n s =
    let e : n / discard_size * discard_size + n % discard_size ≡ n = omega arith in
    rw (left_of-read_full, discard_times-drop)
      (drop-drop (n % discard_size) (n / discard_size * discard_size) s ∙ ap (λ k. drop k s) e)
