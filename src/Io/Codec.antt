-- ===== src/Io/Codec.antt =====
-- A reader and a writer of the same values.
use go_wire.Prelude.{ℕ, false, List, Bool, ◌≡◌, ◌++◌}
use go_wire.Io.{refuse_put, Put, done, Error, Read, IsInput, written, ok}
use go_wire.Io.Reads.{RoundTrips}
use go_wire.Io.Takes.{Takes}

-- What `f` writes for a value that satisfies `P` reads back; what `m` reads satisfies `P`, and `f`
-- writes for it the bytes that it was read from.
pub record IsCodec {ℓ κ} {A : Type ℓ} (m : Read A) (f : A → Put) (P : A → Type κ)
    : Type (ℓ ⊔ κ) where
  pub reads_back : (a : A) → P a → RoundTrips (f a) m a
  pub takes : Takes m (λ a bs. P a × (f a ≡ done bs))

pub RoundTrips-written {ℓ} :
    {A : Type ℓ} (b : Bool) (e : Error) {p : Put} {m : Read A} {a : A}
    → b ≡ false
    → RoundTrips p m a
    → RoundTrips (refuse_put b e p) m a
unfolding refuse_put
RoundTrips-written b e h r = rw h r

pub refuse_put-passes :
    (b : Bool) (e : Error) {p : Put} {bs : List ℕ}
    → b ≡ false
    → p ≡ done bs
    → refuse_put b e p ≡ done bs
unfolding refuse_put
refuse_put-passes b e h r = rw h r

pub IsCodec-taken {ℓ κ} :
    {A : Type ℓ} {m : Read A} {f : A → Put} {P : A → Type κ}
    → IsCodec m f P
    → (s : List ℕ) (a : A) (rest : List ℕ) → IsInput s
    → m s ≡ ok a rest
    → (s ≡ written (f a) ++ rest) × P a
unfolding written
IsCodec-taken c s a rest i e = let (bs, es, q) = c.takes.at s a rest i e in (rw q.1 es, q.0)
