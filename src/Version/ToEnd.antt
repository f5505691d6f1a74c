-- ===== src/Version/ToEnd.antt =====
-- A decoder that reads a buffer to its end.
use go_wire.Prelude.{[], Bool, ◌∷◌, ◌≡◌, false, append-nil, ◌++◌, ℕ, refl, subst, List}
use go_wire.Io.{Put, Error, Read, ◌>>=◌, ok, done, refuse_put, ◌▸◌, err}
use go_wire.Io.Reads.{RoundTrips}
use go_wire.Version.{if_more}

-- `p` writes to the end, and from what it wrote, with nothing behind it, `m` reads `a` back.
pub record Whole {ℓ} {A : Type ℓ} (p : Put) (m : Read A) (a : A) : Type ℓ where
  pub bytes : List ℕ
  pub written : p ≡ done bytes
  pub reads : m bytes ≡ ok a []

module _ {ℓ} {A : Type ℓ} where
  pub RoundTrips-Whole : {p : Put} {m : Read A} {a : A} → RoundTrips p m a → Whole p m a
  RoundTrips-Whole {m = m} {a = a} h = record {
    bytes = h.bytes;
    written = h.written;
    reads = subst (λ l. m l ≡ ok a []) (append-nil h.bytes) (h.reads []);
  }

  pub Whole-written :
      (b : Bool) (e : Error) {p : Put} {m : Read A} {a : A}
      → b ≡ false
      → Whole p m a
      → Whole (refuse_put b e p) m a
  unfolding refuse_put
  Whole-written b e h r = rw h r

  -- A field that is there: without a byte its reader fails.
  pub RoundTrips-more :
      {p : Put} {m : Read A} {a : A} {e : Error} {r : List ℕ} (old : A)
      → m [] ≡ err e r
      → RoundTrips p m a
      → RoundTrips p (if_more m old) a
  unfolding if_more
  RoundTrips-more {m = m} {a = a} old stops h = record {
    bytes = h.bytes;
    written = h.written;
    reads = λ rest. go h.bytes h.reads rest;
  }
    where
      go :
          (bs : List ℕ)
          → ((rest : List ℕ) → m (bs ++ rest) ≡ ok a rest)
          → (rest : List ℕ) → if_more m old (bs ++ rest) ≡ ok a rest
      go [] f rest = let x = f [] in cc
      go (b ∷ bs) f rest = f rest

  -- A field that is not there.
  pub Whole-missing : (m : Read A) (old : A) → Whole (done []) (if_more m old) old
  unfolding if_more
  Whole-missing m old = record { bytes = []; written = refl; reads = refl }

module _ {ℓ κ} {A : Type ℓ} {B : Type κ} where
  pub Whole-bind :
      {p q : Put} {m : Read A} {a : A} (f : A → Read B) {b : B}
      → RoundTrips p m a
      → Whole q (f a) b
      → Whole (p ▸ q) (m >>= f) b
  Whole-bind f h k = record {
    bytes = h.bytes ++ k.bytes;
    written = rw (h.written, k.written) refl;
    reads = rw (◌>>=◌, h.reads k.bytes) k.reads;
  }

  pub Whole-last :
      {p : Put} {m : Read A} {a : A} (f : A → Read B) {b : B}
      → Whole p m a
      → ((s : List ℕ) → f a s ≡ ok b s)
      → Whole p (m >>= f) b
  Whole-last f h k = record {
    bytes = h.bytes;
    written = h.written;
    reads = rw (◌>>=◌, h.reads) (k []);
  }
