-- ===== src/Io/Reads.antt =====
-- Round trips: `m` reads back what `p` wrote. One rule for each way to build a reader.
use go_wire.Prelude.{Bool, false, All, ℕ, ◌≡◌, refl, List, [], ◌∷◌, ◌++◌, length, append_assoc}
use go_wire.Io.{
  Read, Put, Error, written, done, ok, ◌>>=◌, ◌>>◌, ◌▸◌, pure, read_full, read_times, refuse_if,
  write_each,
}

-- `p` writes to the end, and from what it wrote, whatever follows, `m` reads `a` back and leaves
-- what follows.
pub record RoundTrips {ℓ} {A : Type ℓ} (p : Put) (m : Read A) (a : A) : Type ℓ where
  pub bytes : List ℕ
  pub written : p ≡ done bytes
  pub reads : (rest : List ℕ) → m (bytes ++ rest) ≡ ok a rest

module _ {ℓ} {A : Type ℓ} where
  pub RoundTrips-pure : (a : A) → RoundTrips (done []) (pure a) a
  RoundTrips-pure a = record { bytes = []; written = refl; reads = λ rest. refl }

module _ {ℓ κ} {A : Type ℓ} {B : Type κ} where
  pub RoundTrips-bind :
      {p q : Put} {m : Read A} {a : A} (f : A → Read B) {b : B}
      → RoundTrips p m a
      → RoundTrips q (f a) b
      → RoundTrips (p ▸ q) (m >>= f) b
  RoundTrips-bind f h k = record {
    bytes = h.bytes ++ k.bytes;
    written = rw (h.written, k.written);
    reads = λ rest. rw (append_assoc, ◌>>=◌, h.reads) (k.reads rest);
  }

  -- the last read of a block
  pub RoundTrips-last :
      {p : Put} {m : Read A} {a : A} (f : A → Read B) {b : B}
      → RoundTrips p m a
      → ((s : List ℕ) → f a s ≡ ok b s)
      → RoundTrips p (m >>= f) b
  RoundTrips-last f h k = record {
    bytes = h.bytes;
    written = h.written;
    reads = λ rest. rw (◌>>=◌, h.reads) (k rest);
  }

pub read_full-append : (bs rest : List ℕ) → read_full (length bs) (bs ++ rest) ≡ ok bs rest
unfolding read_full
read_full-append [] rest = refl
read_full-append (b ∷ bs) rest = rw (read_full-append bs rest)

pub RoundTrips-pass {ℓ} :
    {A : Type ℓ} (b : Bool) (e : Error) {p : Put} {m : Read A} {a : A}
    → b ≡ false
    → RoundTrips p m a
    → RoundTrips p (refuse_if b e >> m) a
unfolding refuse_if
RoundTrips-pass b e h r = rw h r

pub RoundTrips-each {ℓ κ} :
    {A : Type ℓ} (P : A → Type κ) (f : A → Put) (m : Read A)
    → ((a : A) → P a → RoundTrips (f a) m a)
    → (xs : List A) → All P xs
    → RoundTrips (write_each f xs) (read_times (length xs) m) xs
unfolding write_each read_times
RoundTrips-each P f m h [] p = RoundTrips-pure []
RoundTrips-each P f m h (x ∷ xs) p =
    RoundTrips-bind _ (h x p.0) (RoundTrips-last _ (RoundTrips-each P f m h xs p.1) (λ s. refl))

-- A round trip as a run of the reader.
pub RoundTrips-run {ℓ} :
    {A : Type ℓ} {p : Put} {m : Read A} {a : A}
    → RoundTrips p m a
    → (rest : List ℕ) → m (written p ++ rest) ≡ ok a rest
unfolding written
RoundTrips-run h rest = rw h.written (h.reads rest)
