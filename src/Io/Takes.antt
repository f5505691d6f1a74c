-- ===== src/Io/Takes.antt =====
-- What a reader consumed when it succeeds: one rule for each way to build it.
use go_wire.Prelude.{
  ℕ, zero, suc, ◌≡◌, refl, sym, ap, subst, ◌∙◌, List, [], ◌∷◌, ◌++◌, length, length-append,
  All-append_left, All-append_right, append_assoc, append-nil, All, arith, Bool, true, false,
  if◌then◌else◌,
}
use go_wire.Io.{
  Read, Outcome, ok, err, ◌>>=◌, pure, fail, read_full, Put, done, ◌>>◌, read_times, refuse_if,
  write_each, with_head, IsByte, IsInput, Error,
}

-- On every input from which `m` returns an `a`, the bytes that it took satisfy `Q a`.
pub record Takes {ℓ κ} {A : Type ℓ} (m : Read A) (Q : A → List ℕ → Type κ) : Type (ℓ ⊔ κ) where
  pub at :
      (s : List ℕ) (a : A) (rest : List ℕ)
      → IsInput s
      → m s ≡ ok a rest
      → (bs : List ℕ) × (s ≡ bs ++ rest) × Q a bs

pub IsInput-rest : (bs rest : List ℕ) → IsInput (bs ++ rest) → IsInput rest
IsInput-rest bs rest h = record {
  bytes = All-append_right IsByte bs rest h.bytes;
  short = omega (arith, h.short, length-append bs rest);
}

pub IsInput-taken : (bs rest : List ℕ) → IsInput (bs ++ rest) → IsInput bs
IsInput-taken bs rest h = record {
  bytes = All-append_left IsByte bs rest h.bytes;
  short = omega (arith, h.short, length-append bs rest);
}

-- Inversion of a successful bind.
pub >>=-eq-ok {ℓ κ} :
    {A : Type ℓ} {B : Type κ} (o : Outcome A) (f : A → Read B) {b : B} {rest : List ℕ}
    → (elim o [ ok a r ↦ f a r | err e r ↦ err e r ]) ≡ ok b rest
    → (a : A) × (mid : List ℕ) × (o ≡ ok a mid) × (f a mid ≡ ok b rest)
>>=-eq-ok (ok a mid) f h = (a, mid, refl, h)
>>=-eq-ok (err e mid) f h = cc

module _ {ℓ κ ν ρ} {A : Type ℓ} {B : Type κ} where
  pub Takes-bind :
      {m : Read A} {f : A → Read B} {Q : A → List ℕ → Type ν} {R : B → List ℕ → Type ρ}
      → Takes m Q
      → ((a : A) (bs : List ℕ) → IsInput bs → Q a bs → Takes (f a) (λ b cs. R b (bs ++ cs)))
      → Takes (m >>= f) R
  Takes-bind {m = m} {f = f} {R = R} h k = record {
    at = λ s b rest i e.
        let (a, mid, em, ef) = >>=-eq-ok (m s) f e in
        let (bs, es, q) = h.at s a mid i em in
        let i' : IsInput (bs ++ mid) = rw es at i in
        let (cs, em', r) =
          (k a bs (IsInput-taken bs mid i') q).at mid b rest (IsInput-rest bs mid i') ef in
        (bs ++ cs, es ∙ ap (λ l. bs ++ l) em' ∙ sym (append_assoc bs cs rest), r);
  }

module _ {ℓ κ ν} {A : Type ℓ} where
  pub Takes-weaken :
      {m : Read A} {Q : A → List ℕ → Type κ} {R : A → List ℕ → Type ν}
      → Takes m Q
      → ((a : A) (bs : List ℕ) → IsInput bs → Q a bs → R a bs)
      → Takes m R
  Takes-weaken h k = record {
    at = λ s a rest i e.
        let (bs, es, q) = h.at s a rest i e in
        let i' : IsInput (bs ++ rest) = rw es at i in (bs, es, k a bs (IsInput-taken bs rest i') q);
  }

module _ {ℓ κ} {A : Type ℓ} where
  pub Takes-pure : {a : A} {Q : A → List ℕ → Type κ} → Q a [] → Takes (pure a) Q
  Takes-pure {Q = Q} q = record { at = λ s b rest i e. ([], cc, subst (λ c. Q c []) (cc) q) }

  pub Takes-fail : {e : Error} {Q : A → List ℕ → Type κ} → Takes (fail e) Q
  Takes-fail = record { at = λ s b rest i p. cc }

module _ {ℓ κ} {A : Type ℓ} {Q : A → List ℕ → Type κ} where
  pub Takes-if :
      (b : Bool) {m n : Read A}
      → (b ≡ true → Takes m Q)
      → (b ≡ false → Takes n Q)
      → Takes (if b then m else n) Q
  Takes-if true h k = h refl
  Takes-if false h k = k refl

with_head_inv :
    (b : ℕ) (o : Outcome (List ℕ)) (bs rest : List ℕ)
    → with_head b o ≡ ok bs rest
    → (cs : List ℕ) × (o ≡ ok cs rest) × (bs ≡ b ∷ cs)
with_head_inv b (ok cs mid) bs rest e = (cs, cc, cc)
with_head_inv b (err x mid) bs rest e = cc

read_full_taken :
    (n : ℕ) (s bs rest : List ℕ) → read_full n s ≡ ok bs rest → (s ≡ bs ++ rest) × (length bs ≡ n)
unfolding read_full
read_full_taken zero s bs rest e = ground arith
read_full_taken (suc n) [] bs rest e = cc
read_full_taken (suc n) (b ∷ s) bs rest e =
    let (cs, eo, eb) = with_head_inv b (read_full n s) bs rest e in
    let (es, el) = read_full_taken n s cs rest eo in
    (ap (λ l. b ∷ l) es ∙ ap (λ l. l ++ rest) (sym eb), rw eb (ap suc el))

pub Takes-read_full : (n : ℕ) → Takes (read_full n) (λ a bs. (a ≡ bs) × (length bs ≡ n))
Takes-read_full n = record {
  at = λ s a rest i e. let (es, el) = read_full_taken n s a rest e in (a, es, (refl, el));
}

pub Takes-pass {ℓ κ} :
    {A : Type ℓ} (b : Bool) (e : Error) {m : Read A} {Q : A → List ℕ → Type κ}
    → (b ≡ false → Takes m Q)
    → Takes (refuse_if b e >> m) Q
unfolding refuse_if
Takes-pass true e h = Takes-fail
Takes-pass false e h = h refl

pub Takes-refuse_if {κ} :
    (b : Bool) (e : Error) {Q : Unit {0} → List ℕ → Type κ}
    → (b ≡ false → Q tt [])
    → Takes (refuse_if b e) Q
unfolding refuse_if
Takes-refuse_if true e q = Takes-fail
Takes-refuse_if false e q = Takes-pure (q refl)

-- A loop: the items are as many as the rounds, each satisfies `P`, and the bytes that the loop
-- took are those that `f` writes for the items.
pub Takes-times {ℓ κ} :
    {A : Type ℓ} (P : A → Type κ) (f : A → Put) (m : Read A)
    → Takes m (λ a bs. P a × (f a ≡ done bs))
    → (n : ℕ)
    → Takes (read_times n m) (λ xs bs. (length xs ≡ n) × All P xs × (write_each f xs ≡ done bs))
unfolding read_times write_each
Takes-times P f m h zero = Takes-pure (refl, tt, refl)
Takes-times P f m h (suc n) = Takes-bind h λ x bs i q.
    Takes-bind (Takes-times P f m h n)
      λ xs cs j r. Takes-pure (ap suc r.0, (q.0, r.1), rw (q.1, r.2, append-nil))

-- Inversion of a check that passed.
pub refuse_if-eq-ok {ℓ} :
    {A : Type ℓ} (b : Bool) (e : Error) (m : Read A) (s : List ℕ) {a : A} {rest : List ℕ}
    → (refuse_if b e >> m) s ≡ ok a rest
    → (b ≡ false) × (m s ≡ ok a rest)
unfolding refuse_if
refuse_if-eq-ok true e m s h = cc
refuse_if-eq-ok false e m s h = (refl, h)
