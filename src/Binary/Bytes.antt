-- ===== src/Binary/Bytes.antt =====
-- Numbers as bytes, in either order.
use go_wire.Prelude.{
  ℕ, zero, suc, ◌+◌, ◌*◌, ◌/◌, ◌%◌, ◌^◌, ◌<◌, ◌≡◌, refl, ap, ◌∙◌, List, [], ◌∷◌, ◌++◌, length,
  length-append, All, arith,
}
use mathlib.Core.List.{reverse, reverse-reverse, reverse-append}
use native.Mathlib.Nat.{pow-suc}
use go_wire.Io.{IsByte}
use go_wire.Binary.{ByteOrder, little, big, le, from_le, order_bytes, of_order}

pub length-le : (k v : ℕ) → length (le k v) ≡ k
unfolding le
length-le zero v = refl
length-le (suc k) v = ap suc (length-le k (v / 256))

pub le-IsByte : (k v : ℕ) → All IsByte (le k v)
unfolding le
le-IsByte zero v = tt
le-IsByte (suc k) v = (omega arith, le-IsByte k (v / 256))

pub from_le-le : (k v : ℕ) → v < 256 ^ k → from_le (le k v) ≡ v
unfolding le from_le
from_le-le zero v h = omega arith
from_le-le (suc k) v h = omega (arith, from_le-le k (v / 256) (omega (arith, pow-suc 256 k)))

pub from_le-lt : (bs : List ℕ) → All IsByte bs → from_le bs < 256 ^ length bs
unfolding from_le
from_le-lt [] h = omega arith
from_le-lt (b ∷ bs) h = omega (arith, from_le-lt bs h.1, pow-suc 256 (length bs))

pub le-from_le : (bs : List ℕ) → All IsByte bs → le (length bs) (from_le bs) ≡ bs
unfolding le from_le
le-from_le [] h = refl
le-from_le (b ∷ bs) h =
    let low : (b + 256 * from_le bs) % 256 ≡ b = omega arith in
    let high : (b + 256 * from_le bs) / 256 ≡ from_le bs = omega arith in
    rw (low, high, le-from_le bs h.1)

All-snoc : (bs : List ℕ) (b : ℕ) → All IsByte bs → IsByte b → All IsByte (bs ++ (b ∷ []))
All-snoc [] b h k = (k, tt)
All-snoc (c ∷ bs) b h k = (h.0, All-snoc bs b h.1 k)

length-reverse : (bs : List ℕ) → length (reverse bs) ≡ length bs
length-reverse [] = refl
length-reverse (b ∷ bs) =
    rw (reverse-append (b ∷ []) bs)
      (omega (arith, length-append (reverse bs) (b ∷ []), length-reverse bs))

reverse-IsByte : (bs : List ℕ) → All IsByte bs → All IsByte (reverse bs)
reverse-IsByte [] h = tt
reverse-IsByte (b ∷ bs) h =
    rw (reverse-append (b ∷ []) bs) (All-snoc (reverse bs) b (reverse-IsByte bs h.1) h.0)

pub length-order_bytes : (o : ByteOrder) (k v : ℕ) → length (order_bytes o k v) ≡ k
unfolding order_bytes
length-order_bytes little k v = length-le k v
length-order_bytes big k v = length-reverse (le k v) ∙ length-le k v

pub order_bytes-IsByte : (o : ByteOrder) (k v : ℕ) → All IsByte (order_bytes o k v)
unfolding order_bytes
order_bytes-IsByte little k v = le-IsByte k v
order_bytes-IsByte big k v = reverse-IsByte _ (le-IsByte k v)

pub of_order-order_bytes :
    (o : ByteOrder) (k v : ℕ) → v < 256 ^ k → of_order o (order_bytes o k v) ≡ v
unfolding order_bytes of_order
of_order-order_bytes little k v h = from_le-le k v h
of_order-order_bytes big k v h = rw reverse-reverse (from_le-le k v h)

pub of_order-lt : (o : ByteOrder) (bs : List ℕ) → All IsByte bs → of_order o bs < 256 ^ length bs
unfolding of_order
of_order-lt little bs h = from_le-lt bs h
of_order-lt big bs h = rw (length-reverse bs) at (from_le-lt (reverse bs) (reverse-IsByte bs h))

pub order_bytes-of_order :
    (o : ByteOrder) (bs : List ℕ) → All IsByte bs → order_bytes o (length bs) (of_order o bs) ≡ bs
unfolding order_bytes of_order
order_bytes-of_order little bs h = le-from_le bs h
order_bytes-of_order big bs h =
    rw (← length-reverse bs, le-from_le (reverse bs) (reverse-IsByte bs h)) (reverse-reverse bs)
