-- ===== src/Counted/Transfer.antt =====
-- Counted lists on the wire.
use go_wire.Prelude.{
  sym, append-nil, refl, ◌≡◌, subst, String, le→ltb, [], ◌∷◌, ap, List, arith, ◌^◌, append_assoc,
  suc, length-append, ◌+◌, ltb→le, All, ◌<◌, ℕ, ◌∙◌, ◌≤◌, length, zero, ◌++◌, ltb,
}
use go_wire.Counted.{or_keep, read_counted, read_onto, add_bounded, or_fail, write_counted}
use go_wire.Io.{write_each, ◌>>=◌, ok, Read, done, Put, refuse_put, Error, pure}
use go_wire.Io.Codec.{IsCodec, RoundTrips-written, refuse_put-passes}
use go_wire.Io.Reads.{
  RoundTrips-pure, RoundTrips, RoundTrips-pass, RoundTrips-bind, RoundTrips-last,
}
use go_wire.Io.Takes.{Takes-weaken, Takes-pass, Takes-pure, Takes, Takes-bind}
use go_wire.VarInt.Transfer.{Takes-read_var_int, RoundTrips-var_int}

-- Up to `max` items, `add` appends.
pub record Appends {ℓ} {A : Type ℓ} (max : ℕ) (add : List A → A → Read (List A)) : Type ℓ where
  pub at :
      (xs : List A) (x : A) (s : List ℕ) → length xs + 1 ≤ max → add xs x s ≡ ok (xs ++ (x ∷ [])) s

module _ {ℓ} {A : Type ℓ} (name : String) (max : ℕ) where
  pub or_fail-Appends : Appends max (λ (xs : List A) x. or_fail (add_bounded name max xs x))
  unfolding or_fail add_bounded
  or_fail-Appends = record { at = λ xs x s h. rw (le→ltb max (length xs + 1) h) refl }

  pub or_keep-Appends : Appends max (λ (xs : List A) x. or_keep xs (add_bounded name max xs x))
  unfolding or_keep add_bounded
  or_keep-Appends = record { at = λ xs x s h. rw (le→ltb max (length xs + 1) h) refl }

module _ {ℓ κ} {A : Type ℓ} (P : A → Type κ) (f : A → Put) (m : Read A) where
  RoundTrips-onto :
      (max : ℕ) (add : List A → A → Read (List A))
      → Appends max add
      → ((a : A) → P a → RoundTrips (f a) m a)
      → (xs : List A) → All P xs
      → (acc : List A) → length acc + length xs ≤ max
      → RoundTrips (write_each f xs) (read_onto m add (length xs) acc) (acc ++ xs)
  unfolding write_each read_onto
  RoundTrips-onto max add q h [] p acc few = rw append-nil (RoundTrips-pure acc)
  RoundTrips-onto max add q h (x ∷ xs) p acc few =
      let later =
        RoundTrips-onto max add q h xs p.1 (acc ++ (x ∷ []))
          (omega (arith, few, length-append acc (x ∷ []))) in
      RoundTrips-bind _ (h x p.0) (record {
        bytes = later.bytes;
        written = later.written;
        reads = λ rest.
            rw (◌>>=◌, q.at acc x (later.bytes ++ rest) (omega (arith, few)))
              (later.reads rest ∙ ap (λ l. ok l rest) (append_assoc acc (x ∷ []) xs));
      })

  -- The items that the loop adds to `acc`.
  abbrev Onto : List A → ℕ → List A → List ℕ → Type (ℓ ⊔ κ)
  Onto acc n all bs =
      (xs : List A) × (all ≡ acc ++ xs) × (length xs ≡ n) × All P xs × (write_each f xs ≡ done bs)

  Takes-read_onto :
      (max : ℕ) (add : List A → A → Read (List A))
      → Appends max add
      → Takes m (λ a bs. P a × (f a ≡ done bs))
      → (n : ℕ) (acc : List A) → length acc + n ≤ max
      → Takes (read_onto m add n acc) (Onto acc n)
  unfolding write_each read_onto
  Takes-read_onto max add q h zero acc few = Takes-pure ([], sym (append-nil acc), refl, tt, refl)
  Takes-read_onto max add q h (suc n) acc few = Takes-bind h λ x bs i t. record {
    at = λ s all rest j e.
        let inner : read_onto m add n (acc ++ (x ∷ [])) s ≡ ok all rest =
          rw (◌>>=◌, q.at acc x s (omega (arith, few))) at e in
        let (cs, es, (xs, ea, el, p, w)) =
          (Takes-read_onto max add q h n (acc ++ (x ∷ []))
              (omega (arith, few, length-append acc (x ∷ [])))).at
            s all rest j inner in
        (
          cs,
          es,
          (x ∷ xs, ea ∙ append_assoc acc (x ∷ []) xs, ap suc el, (t.0, p), rw (t.1, w) refl),
        );
  }

  pub RoundTrips-counted :
      (name : String) (max : ℕ) (add : List A → A → Read (List A))
      → Appends max add
      → ((a : A) → P a → RoundTrips (f a) m a)
      → max < 2 ^ 64
      → (xs : List A) → All P xs
      → length xs ≤ max
      → RoundTrips (write_counted f xs) (read_counted name max m add) xs
  unfolding write_counted read_counted
  RoundTrips-counted name max add q h w xs p few =
      RoundTrips-bind _ (RoundTrips-var_int (length xs) (omega (arith, few, w))) (
        RoundTrips-pass _ _ (le→ltb _ _ few)
          (RoundTrips-onto max add q h xs p [] (omega (arith, few))))

  pub Takes-counted :
      (name : String) (max : ℕ) (add : List A → A → Read (List A))
      → Appends max add
      → Takes m (λ a bs. P a × (f a ≡ done bs))
      → Takes
          (read_counted name max m add)
          (λ xs bs. (length xs ≤ max) × All P xs × (write_counted f xs ≡ done bs))
  unfolding write_counted read_counted
  Takes-counted name max add q h = Takes-bind Takes-read_var_int λ count ds i c.
      Takes-pass _ _ λ few.
        Takes-weaken (Takes-read_onto max add q h count [] (omega (arith, ltb→le max count few)))
          λ all bs j (xs, ea, el, p, w). (
            omega (arith, ap length ea, el, ltb→le max count few),
            subst (All P) (sym ea) p,
            rw (ea, el, c.1, w) refl,
          )

-- A message that is a counted list, whose encoder refuses a list that is too long.
pub list_message-IsCodec {ℓ κ ν} :
    {A : Type ℓ} {B : Type ν} {m : Read A} {f : A → Put} {P : A → Type κ} (name : String)
    (e : Error) {max : ℕ} {add : List A → A → Read (List A)} (to : List A → B) (from : B → List A)
    → Appends max add
    → IsCodec m f P
    → max < 2 ^ 64
    → ((b : B) → to (from b) ≡ b)
    → ((xs : List A) → from (to xs) ≡ xs)
    → IsCodec
        (read_counted name max m add >>= λ xs. pure (to xs))
        (λ b. refuse_put (ltb max (length (from b))) e (write_counted f (from b)))
        (λ b. (length (from b) ≤ max) × All P (from b))
list_message-IsCodec {m = m} {f = f} {P = P} name e {max = max} {add = add} to from q c w back
      forth =
    record {
      reads_back = λ b p. RoundTrips-written _ e (le→ltb max _ p.0) (
          RoundTrips-last _
            (RoundTrips-counted P f m name max add q c.reads_back w (from b) p.1 p.0)
            (λ s. ap (λ x. ok x s) (back b)));
      takes = Takes-bind (Takes-counted P f m name max add q c.takes) λ xs bs i t. Takes-pure (
        rw (forth xs) (t.0, t.1),
        rw (forth xs, append-nil) (refuse_put-passes _ e (le→ltb max _ t.0) t.2),
      );
    }
