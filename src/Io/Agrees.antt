-- ===== src/Io/Agrees.antt =====
-- Two readers that do the same: on every input both return related results, or both stop with an
-- error that differs at most in the function that a MessageError names, and they leave the same.
use go_wire.Prelude.{List, false, true, refl, ℕ, Bool, ◌≡◌, ◌++◌}
use go_wire.Io.{
  message_error, Read, fail, ◌>>◌, ok, refuse_if, err, Error, pure, ◌>>=◌, Outcome, Put,
}
use go_wire.Io.Reads.{RoundTrips}
use go_wire.Io.Takes.{Takes}

-- an error without the name of the function that found it
abbrev pub kind_of : Error → Error
kind_of (message_error name) = message_error ""
kind_of e = e

pub data Matches {ℓ κ ν} {A : Type ℓ} {B : Type κ} (R : A → B → Type ν)
    : Outcome A → Outcome B → Type (ℓ ⊔ κ ⊔ ν) where
  both_ok : {a : A} {b : B} {rest : List ℕ} → R a b → Matches R (ok a rest) (ok b rest)
  both_err :
      {e e' : Error} {rest : List ℕ} → kind_of e ≡ kind_of e' → Matches R (err e rest) (err e' rest)

pub record Agrees {ℓ κ ν} {A : Type ℓ} {B : Type κ} (m : Read A) (n : Read B) (R : A → B → Type ν)
    : Type (ℓ ⊔ κ ⊔ ν) where
  pub at : (s : List ℕ) → Matches R (m s) (n s)

bind_outcomes {ℓ κ ν ℓ' κ' ν'} :
    {A : Type ℓ} {B : Type κ} {C : Type ℓ'} {D : Type κ'} {R : A → B → Type ν} {S : C → D → Type ν'}
    (f : A → Read C) (g : B → Read D) (o : Outcome A) (p : Outcome B)
    → Matches R o p
    → ((a : A) (b : B) → R a b → Agrees (f a) (g b) S)
    → Matches S
        (elim o [ ok a r ↦ f a r | err e r ↦ err e r ])
        (elim p [ ok b r ↦ g b r | err e r ↦ err e r ])
bind_outcomes f g _ _ (both_ok {a = a} {b = b} {rest = rest} r) k = (k a b r).at rest
bind_outcomes f g _ _ (both_err e) k = both_err e

pub Agrees-bind {ℓ κ ν ℓ' κ' ν'} :
    {A : Type ℓ} {B : Type κ} {C : Type ℓ'} {D : Type κ'} {R : A → B → Type ν} {S : C → D → Type ν'}
    {m : Read A} {n : Read B} (f : A → Read C) (g : B → Read D)
    → Agrees m n R
    → ((a : A) (b : B) → R a b → Agrees (f a) (g b) S)
    → Agrees (m >>= f) (n >>= g) S
Agrees-bind {m = m} {n = n} f g h k = record { at = λ s. bind_outcomes f g (m s) (n s) (h.at s) k }

-- the same read at the start of both
pub Agrees-same {ℓ κ ν ρ} :
    {A : Type ℓ} {C : Type κ} {D : Type ν} {S : C → D → Type ρ} (m : Read A) (f : A → Read C)
    (g : A → Read D)
    → ((a : A) → Agrees (f a) (g a) S)
    → Agrees (m >>= f) (m >>= g) S
Agrees-same {A = A} {S = S} m f g k = record { at = λ s. go (m s) }
  where
    go :
        (o : Outcome A)
        → Matches S
            (elim o [ ok a r ↦ f a r | err e r ↦ err e r ])
            (elim o [ ok a r ↦ g a r | err e r ↦ err e r ])
    go (ok a rest) = (k a).at rest
    go (err e rest) = both_err refl

pub Agrees-pure {ℓ κ ν} :
    {A : Type ℓ} {B : Type κ} {R : A → B → Type ν} {a : A} {b : B}
    → R a b
    → Agrees (pure a) (pure b) R
Agrees-pure r = record { at = λ s. both_ok r }

pub Agrees-fail {ℓ κ ν} :
    {A : Type ℓ} {B : Type κ} {R : A → B → Type ν} (e e' : Error)
    → kind_of e ≡ kind_of e'
    → Agrees (fail {A = A} e) (fail {A = B} e') R
Agrees-fail e e' h = record { at = λ s. both_err h }

-- the same check before both
pub Agrees-pass {ℓ κ ν} :
    {A : Type ℓ} {B : Type κ} {R : A → B → Type ν} {m : Read A} {n : Read B} (b : Bool)
    (e e' : Error)
    → kind_of e ≡ kind_of e'
    → Agrees m n R
    → Agrees (refuse_if b e >> m) (refuse_if b e' >> n) R
unfolding refuse_if
Agrees-pass true e e' h k = Agrees-fail e e' h
Agrees-pass false e e' h k = k

module _ {ℓ} {A : Type ℓ} where
  taken_over :
      {o p : Outcome A} {a : A} {rest : List ℕ}
      → Matches (λ a b. a ≡ b) o p
      → p ≡ ok a rest
      → o ≡ ok a rest
  taken_over (both_ok r) e = cc
  taken_over (both_err r) e = cc

  taken_back :
      {o p : Outcome A} {a : A} {rest : List ℕ}
      → Matches (λ a b. a ≡ b) o p
      → o ≡ ok a rest
      → p ≡ ok a rest
  taken_back (both_ok r) e = cc
  taken_back (both_err r) e = cc

  -- A reader that agrees with another has its round trips, and takes what it takes.
  pub Agrees-RoundTrips :
      {m n : Read A} {p : Put} {a : A}
      → Agrees m n (λ a b. a ≡ b)
      → RoundTrips p n a
      → RoundTrips p m a
  Agrees-RoundTrips h r = record {
    bytes = r.bytes;
    written = r.written;
    reads = λ rest. taken_over (h.at (r.bytes ++ rest)) (r.reads rest);
  }

  pub Agrees-Takes {κ} :
      {m n : Read A} {Q : A → List ℕ → Type κ} → Agrees m n (λ a b. a ≡ b) → Takes n Q → Takes m Q
  Agrees-Takes h t = record { at = λ s a rest i e. t.at s a rest i (taken_back (h.at s) e) }
