-- ===== src/Arena.antt =====
-- block_arena.go: the bump allocator for the scripts of a block. A slice is the place that it
-- occupies: the chunk, known by the number of chunks made before it, and its two ends in it.
pub mod Disjoint
use go_wire.Prelude.{
  if◌then◌else◌, ℕ, [], some, ◌+◌, Option, leb, List, ◌*◌, ◌++◌, none, ◌==◌, ◌∷◌, ltb,
}

abbrev pub block_arena_chunk_size : ℕ
block_arena_chunk_size = 4 * 1024 * 1024

abbrev pub block_arena_min_first_chunk : ℕ
block_arena_min_first_chunk = 4 * 1024

-- what `make([]byte, size)` returns
pub record Chunk : Type 0 where
  pub number : ℕ
  pub size : ℕ

pub record Region : Type 0 where
  pub chunk : Chunk
  pub start : ℕ
  pub stop : ℕ

-- `made` counts the chunks made so far; the other fields are those of blockArena.
pub record Arena : Type 0 where
  pub active : Option Chunk
  pub offset : ℕ
  pub others : List Chunk
  pub size_hint : ℕ
  pub made : ℕ

unfoldable pub new_block_arena_sized : ℕ → Arena
new_block_arena_sized size_hint = record {
  active = none;
  offset = 0;
  others = [];
  size_hint = size_hint;
  made = 0;
}

unfoldable pub new_block_arena : Arena
unfolding new_block_arena_sized
new_block_arena = new_block_arena_sized 0

-- the size of the first standard chunk, for a first request of n bytes
unfoldable pub first_chunk_size : ℕ → ℕ → ℕ
first_chunk_size size_hint n =
    let first = if ltb n size_hint then size_hint else n in
    let floored =
      if ltb first block_arena_min_first_chunk then block_arena_min_first_chunk else first in
    if ltb block_arena_chunk_size floored then block_arena_chunk_size else floored

-- more than a chunk: a chunk of its own among the others
unfoldable pub alloc_oversize : Arena → ℕ → Arena × Region
alloc_oversize a n =
    let chunk : Chunk = record { number = a.made; size = n } in
    (
      record a { others = a.others ++ (chunk ∷ []); made = a.made + 1 },
      record { chunk = chunk; start = 0; stop = n },
    )

-- from the active chunk if there is room, else from a new one that replaces it
unfoldable pub alloc_bump : Arena → Chunk → ℕ → Arena × Region
alloc_bump a active n =
    if leb (a.offset + n) active.size
    then (
      record a { offset = a.offset + n },
      record { chunk = active; start = a.offset; stop = a.offset + n },
    )
    else (let chunk : Chunk = record { number = a.made; size = block_arena_chunk_size } in
        (
          record a {
            others = a.others ++ (active ∷ []);
            active = some chunk;
            offset = n;
            made = a.made + 1;
          },
          record { chunk = chunk; start = 0; stop = n },
        ))

unfoldable pub alloc_standard : Arena → ℕ → Arena × Region
alloc_standard a n = elim a.active [
  | none ↦
      let chunk : Chunk = record { number = a.made; size = first_chunk_size a.size_hint n } in
      alloc_bump (record a { active = some chunk; offset = 0; made = a.made + 1 }) chunk n
  | some active ↦ alloc_bump a active n
]

-- Alloc. There is no slice for no bytes.
unfoldable pub alloc : Arena → ℕ → Arena × Option Region
alloc a n =
    if n == 0
    then (a, none)
    else if ltb block_arena_chunk_size n
    then (let (a', r) = alloc_oversize a n in (a', some r))
    else (let (a', r) = alloc_standard a n in (a', some r))

abbrev pub collect : Option Region → List Region → List Region
collect none rs = rs
collect (some r) rs = r ∷ rs

-- The slices of a sequence of requests, in order.
unfoldable pub alloc_all : Arena → List ℕ → List Region
alloc_all a [] = []
alloc_all a (n ∷ ns) = let (a', o) = alloc a n in collect o (alloc_all a' ns)
