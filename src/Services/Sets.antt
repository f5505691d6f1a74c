-- ===== src/Services/Sets.antt =====
-- The services as sets.
use native.Mathlib.Nat.{pow-suc}
use go_wire.Prelude.{ℕ, suc, ◌/◌, arith, ◌≤◌, ◌+◌, ◌^◌, ◌*◌, refl, ◌≡◌, ◌%◌, ◌<◌, zero, true}
use go_wire.Services.{
  bit_and, and_bit, or_bit, bit_or, contains_service, add_service, has_service, with_service,
}
use go_wire.Version.{MsgVersion}

and_bit_bound : (x y : ℕ) → and_bit x y ≤ 1
unfolding and_bit
and_bit_bound x y = ground arith

or_bit_bound : (x y : ℕ) → or_bit x y ≤ 1
unfolding or_bit
or_bit_bound x y = ground arith

or_bit_left : (x y : ℕ) → x ≤ 1 → and_bit (or_bit x y) x ≡ x
unfolding or_bit and_bit
or_bit_left x y h = ground (arith, h)

or_bit_comm : (x y : ℕ) → or_bit x y ≡ or_bit y x
unfolding or_bit
or_bit_comm x y = ground arith

or_bit_least : (g x y : ℕ) → and_bit g x ≡ x → and_bit g y ≡ y → and_bit g (or_bit x y) ≡ or_bit x y
unfolding or_bit and_bit
or_bit_least g x y h i = ground (arith, h, i)

low : (d r : ℕ) → d ≤ 1 → (d + 2 * r) % 2 ≡ d
low d r h = omega (arith, h)

high : (d r : ℕ) → d ≤ 1 → (d + 2 * r) / 2 ≡ r
high d r h = omega (arith, h)

bit_or_bound : (k a b : ℕ) → bit_or k a b < 2 ^ k
unfolding bit_or
bit_or_bound zero a b = omega arith
bit_or_bound (suc k) a b =
    omega (arith, bit_or_bound k (a / 2) (b / 2), or_bit_bound (a % 2) (b % 2), pow-suc 2 k)

bit_or_comm : (k a b : ℕ) → bit_or k a b ≡ bit_or k b a
unfolding bit_or
bit_or_comm zero a b = refl
bit_or_comm (suc k) a b = rw (or_bit_comm (a % 2) (b % 2), bit_or_comm k (a / 2) (b / 2)) refl

-- The bits of b are among those of a.
abbrev Covers : ℕ → ℕ → ℕ → Type 0
Covers k a b = bit_and k a b ≡ b

bit_or-Covers_left : (k a b : ℕ) → a < 2 ^ k → Covers k (bit_or k a b) a
unfolding bit_or bit_and
bit_or-Covers_left zero a b h = omega (arith, h)
bit_or-Covers_left (suc k) a b h =
    let d = or_bit_bound (a % 2) (b % 2) in
    let r = bit_or k (a / 2) (b / 2) in
    let half : a / 2 < 2 ^ k = omega (arith, h, pow-suc 2 k) in
    rw
      (
        low (or_bit (a % 2) (b % 2)) r d,
        high (or_bit (a % 2) (b % 2)) r d,
        or_bit_left (a % 2) (b % 2) (omega arith),
        bit_or-Covers_left k (a / 2) (b / 2) half,
      )
      (omega arith)

-- A cover is one bit by bit.
Covers-low : (k g a : ℕ) → Covers (suc k) g a → and_bit (g % 2) (a % 2) ≡ a % 2
unfolding bit_and
Covers-low k g a h = omega (arith, h, and_bit_bound (g % 2) (a % 2))

Covers-high : (k g a : ℕ) → Covers (suc k) g a → Covers k (g / 2) (a / 2)
unfolding bit_and
Covers-high k g a h = omega (arith, h, and_bit_bound (g % 2) (a % 2))

bit_or-least : (k g a b : ℕ) → Covers k g a → Covers k g b → Covers k g (bit_or k a b)
unfolding bit_or bit_and
bit_or-least zero g a b h i = omega arith
bit_or-least (suc k) g a b h i =
    let d = or_bit_bound (a % 2) (b % 2) in
    let r = bit_or k (a / 2) (b / 2) in
    rw
      (
        low (or_bit (a % 2) (b % 2)) r d,
        high (or_bit (a % 2) (b % 2)) r d,
        or_bit_least (g % 2) (a % 2) (b % 2) (Covers-low k g a h) (Covers-low k g b i),
        bit_or-least k (g / 2) (a / 2) (b / 2) (Covers-high k g a h) (Covers-high k g b i),
      )
      refl

contains_service-Covers : (a b : ℕ) → contains_service a b ≡ true → Covers 64 a b
unfolding contains_service
contains_service-Covers a b h = ground (arith, h)

Covers-contains_service : (a b : ℕ) → Covers 64 a b → contains_service a b ≡ true
unfolding contains_service
Covers-contains_service a b h = ground (arith, h)

-- For services of 64 bits: after AddService the message has the service that was added, all services
-- that it had, and no more than these: another message that has both has all of its services. They
-- are 64 bits again.
pub add_service_lem :
    (msg other : MsgVersion) (service : ℕ)
    → msg.services < 2 ^ 64
    → service < 2 ^ 64
    → has_service other msg.services ≡ true
    → has_service other service ≡ true
    → (has_service (add_service msg service) service ≡ true)
      × (has_service (add_service msg service) msg.services ≡ true)
      × (has_service other (add_service msg service).services ≡ true)
      × ((add_service msg service).services < 2 ^ 64)
unfolding has_service add_service with_service
add_service_lem msg other service m s had extra =
    let kept = bit_or-Covers_left 64 msg.services service m in
    let flipped : Covers 64 (bit_or 64 msg.services service) service =
      rw (bit_or_comm 64 msg.services service) (bit_or-Covers_left 64 service msg.services s) in
    (
      Covers-contains_service _ service flipped,
      Covers-contains_service _ msg.services kept,
      Covers-contains_service _ _ (
          bit_or-least 64 other.services msg.services service (contains_service-Covers _ _ had)
            (contains_service-Covers _ _ extra)),
      bit_or_bound 64 msg.services service,
    )
