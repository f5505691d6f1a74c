-- ===== src/Io/Writes.antt =====
-- How much a writer writes: one rule for each way to build it.
use go_wire.Prelude.{
  ℕ, ◌+◌, ◌≡◌, refl, List, [], ◌∷◌, ◌++◌, length, length-append, All, arith, append_assoc,
}
use go_wire.Io.{Put, done, ◌▸◌, write_each, written, refused}

-- `p` writes to the end, n bytes in all.
pub record Writes (p : Put) (n : ℕ) : Type 0 where
  pub bytes : List ℕ
  pub complete : p ≡ done bytes
  pub size : length bytes ≡ n

pub Writes-done : (bs : List ℕ) → Writes (done bs) (length bs)
Writes-done bs = record { bytes = bs; complete = refl; size = refl }

pub Writes-▸ : {p q : Put} {m n : ℕ} → Writes p m → Writes q n → Writes (p ▸ q) (m + n)
Writes-▸ h k = record {
  bytes = h.bytes ++ k.bytes;
  complete = rw (h.complete, k.complete);
  size = omega (arith, h.size, k.size, length-append h.bytes k.bytes);
}

pub ▸-assoc : (p q r : Put) → (p ▸ q) ▸ r ≡ p ▸ (q ▸ r)
▸-assoc (done a) (done b) (done c) = rw append_assoc refl
▸-assoc (done a) (done b) (refused e c) = rw append_assoc refl
▸-assoc (done a) (refused e b) r = refl
▸-assoc (refused e a) q r = refl

-- the sum of `n` over a list
unfoldable pub sum_of {ℓ} : {A : Type ℓ} → (A → ℕ) → List A → ℕ
sum_of n [] = 0
sum_of n (x ∷ xs) = n x + sum_of n xs

pub Writes-each {ℓ κ} :
    {A : Type ℓ} (P : A → Type κ) (f : A → Put) (n : A → ℕ)
    → ((a : A) → P a → Writes (f a) (n a))
    → (xs : List A) → All P xs
    → Writes (write_each f xs) (sum_of n xs)
unfolding write_each sum_of
Writes-each P f n h [] p = Writes-done []
Writes-each P f n h (x ∷ xs) p = Writes-▸ (h x p.0) (Writes-each P f n h xs p.1)

pub length-written : {p : Put} {n : ℕ} → Writes p n → length (written p) ≡ n
unfolding written
length-written h = rw h.complete h.size

pub done-injective : {a b : List ℕ} → done a ≡ done b → a ≡ b
done-injective p = cc
