-- ===== src/Arena/Disjoint.antt =====
-- No two slices of an arena overlap, and each lies inside its chunk.
use native.Mathlib.Decide.{ℕ_discrete}
use go_wire.Prelude.{
  leb→le, ◌≢◌, ℕ, some, ◌≤◌, ◌+◌, refl, ◌<◌, ◌≡◌, ◌⊎◌, leb, arith, Bool-cases, inr, inl, Option,
  none, sym, ap, subst, ltb, ltb→le, ◌∷◌, List, ==→eq, ◌==◌, [], All,
}
use go_wire.Arena.{
  alloc_bump, Arena, Region, alloc_oversize, Chunk, block_arena_chunk_size, alloc_standard,
  first_chunk_size, alloc, new_block_arena_sized, collect, alloc_all,
}

-- A slice with n bytes inside its chunk.
abbrev pub Holds : ℕ → Region → Type 0
Holds n r = (r.start + n ≡ r.stop) × (r.stop ≤ r.chunk.size)

abbrev pub Apart : Region → Region → Type 0
Apart r s = (r.chunk.number ≢ s.chunk.number) ⊎ (r.stop ≤ s.start) ⊎ (s.stop ≤ r.start)

-- A slice handed out before: its chunk exists, and it ends at or before the offset if the chunk
-- is the active one.
pub record Behind (a : Arena) (r : Region) : Type 0 where
  pub known : r.chunk.number < a.made
  pub below : (c : Chunk) → a.active ≡ some c → c.number ≡ r.chunk.number → r.stop ≤ a.offset

-- The active chunk exists.
pub record IsArena (a : Arena) : Type 0 where
  pub known : (c : Chunk) → a.active ≡ some c → c.number < a.made

pub record Allocated (a : Arena) (n : ℕ) (a' : Arena) (r : Region) : Type 0 where
  pub holds : Holds n r
  pub valid : IsArena a'
  pub behind : Behind a' r
  pub keeps : (s : Region) → Behind a s → Behind a' s × Apart s r

abbrev number_of : Option Chunk → ℕ
number_of none = 0
number_of (some c) = c.number

oversize-Allocated :
    (a : Arena) (n : ℕ) → IsArena a → Allocated a n (alloc_oversize a n).0 (alloc_oversize a n).1
unfolding alloc_oversize
oversize-Allocated a n h = record {
  holds = (omega arith, omega arith);
  valid = record { known = λ c e. omega (arith, h.known c e) };
  behind = record { known = omega arith; below = λ c e f. omega (arith, h.known c e, f) };
  keeps = λ s b. (
    record { known = omega (arith, b.known); below = b.below },
    inl (λ e. omega (arith, b.known, e)),
  );
}

bump-Allocated :
    (a : Arena) (c : Chunk) (n : ℕ)
    → IsArena a
    → a.active ≡ some c
    → n ≤ block_arena_chunk_size
    → Allocated a n (alloc_bump a c n).0 (alloc_bump a c n).1
unfolding alloc_bump
bump-Allocated a c n h e le = elim (Bool-cases (leb (a.offset + n) c.size)) [
  | inl fits ↦ rw fits (record {
    holds = (refl, leb→le _ _ fits);
    valid = record { known = h.known };
    behind = record { known = h.known c e; below = λ d f g. omega arith };
    keeps = λ s b. (
      record { known = b.known; below = λ d f g. omega (arith, b.below d f g) },
      apart_from_active s b,
    );
  })
  | inr full ↦ rw full (record {
    holds = (omega arith, le);
    valid = record { known = λ d f. omega (arith, ap number_of f) };
    behind = record { known = omega arith; below = λ d f g. omega arith };
    keeps = λ s b. (
      record {
        known = omega (arith, b.known);
        below = λ d f g. absurd (omega (arith, ap number_of f, g, b.known));
      },
      inl (λ g. omega (arith, b.known, g)),
    );
  })
]
  where
    apart_from_active :
        (s : Region)
        → Behind a s
        → Apart s (record { chunk = c; start = a.offset; stop = a.offset + n })
    apart_from_active s b = elim (ℕ_discrete c.number s.chunk.number) [
      | yes p ↦ inr (inl (b.below c e p))
      | no p ↦ inl (λ q. p (sym q))
    ]

first_chunk_size-le : (hint n : ℕ) → first_chunk_size hint n ≤ block_arena_chunk_size
unfolding first_chunk_size
first_chunk_size-le hint n = ground arith

standard_on_active :
    (a : Arena) (n : ℕ) (c : Chunk) → a.active ≡ some c → alloc_standard a n ≡ alloc_bump a c n
unfolding alloc_standard
standard_on_active a n c e = simp (e, alloc_standard)

-- the chunk that the first request makes
abbrev first_chunk : Arena → ℕ → Chunk
first_chunk a n = record { number = a.made; size = first_chunk_size a.size_hint n }

abbrev started : Arena → ℕ → Arena
started a n = record a { active = some (first_chunk a n); offset = 0; made = a.made + 1 }

standard_on_none :
    (a : Arena) (n : ℕ)
    → a.active ≡ none
    → alloc_standard a n ≡ alloc_bump (started a n) (first_chunk a n) n
unfolding alloc_standard
standard_on_none a n e = simp (e, alloc_standard)

started-IsArena : (a : Arena) (n : ℕ) → IsArena (started a n)
started-IsArena a n = record { known = λ d f. omega (arith, ap number_of f) }

started-Behind : (a : Arena) (n : ℕ) (s : Region) → Behind a s → Behind (started a n) s
started-Behind a n s b = record {
  known = omega (arith, b.known);
  below = λ d f g. absurd (omega (arith, ap number_of f, g, b.known));
}

abbrev Result : Arena → ℕ → Arena × Region → Type 0
Result a n p = Allocated a n p.0 p.1

standard-Allocated :
    (a : Arena) (n : ℕ)
    → IsArena a
    → n ≤ block_arena_chunk_size
    → (o : Option Chunk) → a.active ≡ o
    → Result a n (alloc_standard a n)
standard-Allocated a n h le (some c) e =
    subst (Result a n) (sym (standard_on_active a n c e)) (bump-Allocated a c n h e le)
standard-Allocated a n h le none e =
    let r = bump-Allocated (started a n) (first_chunk a n) n (started-IsArena a n) refl le in
    subst (Result a n) (sym (standard_on_none a n e)) (record {
      holds = r.holds;
      valid = r.valid;
      behind = r.behind;
      keeps = λ s b. r.keeps s (started-Behind a n s b);
    })

-- A request for no bytes changes nothing and gives no slice; any other gives a slice.
abbrev pub Served : Arena → ℕ → Arena × Option Region → Type 0
Served a n (a', none) = (n ≡ 0) × (a' ≡ a)
Served a n (a', some r) = Allocated a n a' r

-- From a well-formed arena, Alloc either gives no slice, for a request of no bytes, and leaves the
-- arena as it is, or gives a slice of exactly n bytes that ends inside its chunk; the arena stays
-- well-formed, the slice is behind it, and every slice that was behind the arena stays so and does
-- not overlap the new one.
pub alloc-Served : (a : Arena) (n : ℕ) → IsArena a → Served a n (alloc a n)
unfolding alloc
alloc-Served a n h = elim (Bool-cases (n == 0)) [
  | inl none_asked ↦ rw none_asked (==→eq n 0 none_asked, refl)
  | inr some_asked ↦ rw some_asked (elim (Bool-cases (ltb block_arena_chunk_size n)) [
    | inl big ↦ rw big (oversize-Allocated a n h)
    | inr small ↦ rw small (standard-Allocated a n h (ltb→le _ _ small) a.active refl)
  ])
]

alloc_keeps :
    (a : Arena) (n : ℕ) (s : Region)
    → IsArena a
    → Behind a s
    → (p : Arena × Option Region) → Served a n p
    → (rest : Arena → List Region)
    → ((a' : Arena) → IsArena a' → Behind a' s → All (Apart s) (rest a'))
    → All (Apart s) (collect p.1 (rest p.0))
alloc_keeps a n s h b (a', none) (_, same) rest later =
    subst (λ d. All (Apart s) (rest d)) (sym same) (later a h b)
alloc_keeps a n s h b (a', some r) served rest later =
    let (b', apart) = served.keeps s b in (apart, later a' served.valid b')

-- Every later slice is apart from one that was given out before.
rest_keeps :
    (ns : List ℕ) (a : Arena) (s : Region) → IsArena a → Behind a s → All (Apart s) (alloc_all a ns)
unfolding alloc_all
rest_keeps [] a s h b = tt
rest_keeps (n ∷ ns) a s h b =
    alloc_keeps a n s h b (alloc a n) (alloc-Served a n h) (λ d. alloc_all d ns)
      (λ d h' b'. rest_keeps ns d s h' b')

abbrev pub AllApart : List Region → Type 0
AllApart [] = Unit {0}
AllApart (r ∷ rs) = All (Apart r) rs × AllApart rs

alloc_rest :
    (a : Arena) (n : ℕ) (ns : List ℕ)
    → IsArena a
    → (p : Arena × Option Region) → Served a n p
    → ((d : Arena) → IsArena d → AllApart (alloc_all d ns))
    → AllApart (collect p.1 (alloc_all p.0 ns))
alloc_rest a n ns h (a', none) (_, same) later =
    subst (λ d. AllApart (alloc_all d ns)) (sym same) (later a h)
alloc_rest a n ns h (a', some r) served later =
    (rest_keeps ns a' r served.valid served.behind, later a' served.valid)

arena_apart : (ns : List ℕ) (a : Arena) → IsArena a → AllApart (alloc_all a ns)
unfolding alloc_all
arena_apart [] a h = tt
arena_apart (n ∷ ns) a h =
    alloc_rest a n ns h (alloc a n) (alloc-Served a n h) (λ d h'. arena_apart ns d h')

-- From a new arena of any size hint, no two slices of any sequence of requests overlap.
pub new_block_arena_apart :
    (size_hint : ℕ) (ns : List ℕ) → AllApart (alloc_all (new_block_arena_sized size_hint) ns)
unfolding new_block_arena_sized
new_block_arena_apart size_hint ns = arena_apart ns _ (record { known = λ c e. cc })
