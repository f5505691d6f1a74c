-- ===== src/MessageHeader/Bytes.antt =====
-- bytes.Equal decides equality.
use go_wire.Prelude.{◌==◌, ◌≡◌, ℕ, arith, [], ◌∷◌, refl, List, true}
use go_wire.MessageHeader.{same_bytes}

pub same_bytes-eq : (xs ys : List ℕ) → same_bytes xs ys ≡ true → xs ≡ ys
unfolding same_bytes
same_bytes-eq [] [] h = refl
same_bytes-eq [] (y ∷ ys) h = cc
same_bytes-eq (x ∷ xs) [] h = cc
same_bytes-eq (x ∷ xs) (y ∷ ys) h =
    let both : (x ≡ y) × (same_bytes xs ys ≡ true) = ground (arith, h) in
    rw (both.0, same_bytes-eq xs ys both.1) refl

pub same_bytes_refl : (xs : List ℕ) → same_bytes xs xs ≡ true
unfolding same_bytes
same_bytes_refl [] = refl
same_bytes_refl (x ∷ xs) =
    let same : (x == x) ≡ true = ground arith in rw (same, same_bytes_refl xs) refl
