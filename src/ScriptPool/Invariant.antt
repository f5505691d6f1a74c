-- ===== src/ScriptPool/Invariant.antt =====
-- No buffer of the pool is lent twice.
use go_wire.Prelude.{
  false, if◌then◌else◌, List, ◌∷◌, Bool-cases, All, ◌+◌, inl, ◌≤◌, ◌==◌, [], ℕ, arith, length, ◌≡◌,
  inr, ◌++◌, ltb, ◌<◌, length-append, refl,
}
use go_wire.ScriptPool.{
  borrows, returns, free_list_max_items, receive, free_list_max_script_size, ScriptFreeList, Pool,
  allocate, Buffer, borrow, send, Step, Reaches, script_pool, then_step, here, return_buffer,
}

abbrev is_id : ℕ → Buffer → ℕ
is_id i b = if b.id == i then 1 else 0

-- how many times the buffer of a number stands in a list
unfoldable pub count : ℕ → List Buffer → ℕ
count i [] = 0
count i (b ∷ bs) = is_id i b + count i bs

count-append : (i : ℕ) (xs ys : List Buffer) → count i (xs ++ ys) ≡ count i xs + count i ys
unfolding count
count-append i [] ys = omega arith
count-append i (x ∷ xs) ys = omega (arith, count-append i xs ys)

-- Each buffer is at most once in the pool or lent, none of the allocations to come is there, and the
-- channel holds at most its number of items, each of the size of an item.
pub record IsPool (p : Pool) : Type 0 where
  pub once : (i : ℕ) → count i p.list.free + count i p.lent ≤ 1
  pub fresh : (i : ℕ) → p.list.next ≤ i → count i p.list.free + count i p.lent ≡ 0
  pub sized : All (λ b. b.cap ≡ free_list_max_script_size) p.list.free
  pub few : length p.list.free ≤ free_list_max_items

allocate-IsPool :
    (size : ℕ) (list : ScriptFreeList) (lent : List Buffer)
    → IsPool (record { list = list; lent = lent })
    → IsPool
        (record { list = (allocate size list).list; lent = (allocate size list).buffer ∷ lent })
unfolding allocate count
allocate-IsPool size list lent h = record {
  once = λ i. elim (Bool-cases (list.next == i)) [
    | inl same ↦
        let e : list.next ≤ i = ground (arith, same) in rw same (omega (arith, h.fresh i e))
    | inr other ↦ rw other (omega (arith, h.once i))
  ];
  fresh = λ i later.
      let other : (list.next == i) ≡ false = ground (arith, later) in
      rw other (omega (arith, later, h.fresh i (omega (arith, later))));
  sized = h.sized;
  few = h.few;
}

receive-IsPool :
    (list : ScriptFreeList) (free : List Buffer) (lent : List Buffer)
    → IsPool (record { list = record list { free = free }; lent = lent })
    → IsPool (record {
      list = (receive (record list { free = free }) free).list;
      lent = (receive (record list { free = free }) free).buffer ∷ lent;
    })
unfolding receive count
receive-IsPool list [] lent h =
    allocate-IsPool free_list_max_script_size (record list { free = [] }) lent h
receive-IsPool list (b ∷ free) lent h = record {
  once = λ i. omega (arith, h.once i);
  fresh = λ i later. omega (arith, h.fresh i later);
  sized = h.sized.1;
  few = omega (arith, h.few);
}

borrow-IsPool :
    (size : ℕ) (list : ScriptFreeList) (lent : List Buffer)
    → IsPool (record { list = list; lent = lent })
    → IsPool (record { list = (borrow size list).list; lent = (borrow size list).buffer ∷ lent })
unfolding borrow
borrow-IsPool size list lent h = elim (Bool-cases (ltb free_list_max_script_size size)) [
  | inl large ↦ rw large (allocate-IsPool size list lent h)
  | inr small ↦ rw small (receive-IsPool list list.free lent h)
]

All-append_both :
    (P : Buffer → Type 0) (xs ys : List Buffer) → All P xs → All P ys → All P (xs ++ ys)
All-append_both P [] ys h k = k
All-append_both P (x ∷ xs) ys h k = (h.0, All-append_both P xs ys h.1 k)

-- A buffer that is dropped leaves the pool as it is.
dropped-IsPool :
    (list : ScriptFreeList) (before after : List Buffer) (buf : Buffer)
    → IsPool (record { list = list; lent = before ++ (buf ∷ after) })
    → IsPool (record { list = list; lent = before ++ after })
unfolding count
dropped-IsPool list before after buf h = record {
  once = λ i.
      omega (arith, h.once i, count-append i before (buf ∷ after), count-append i before after);
  fresh = λ i later.
      omega
        (arith, h.fresh i later, count-append i before (buf ∷ after), count-append i before after);
  sized = h.sized;
  few = h.few;
}

send-IsPool :
    (list : ScriptFreeList) (before after : List Buffer) (buf : Buffer)
    → buf.cap ≡ free_list_max_script_size
    → length list.free < free_list_max_items
    → IsPool (record { list = list; lent = before ++ (buf ∷ after) })
    → IsPool
        (record { list = record list { free = list.free ++ (buf ∷ []) }; lent = before ++ after })
unfolding count
send-IsPool list before after buf c n h = record {
  once = λ i. omega (
    arith,
    h.once i,
    count-append i before (buf ∷ after),
    count-append i before after,
    count-append i list.free (buf ∷ []),
  );
  fresh = λ i later. omega (
    arith,
    h.fresh i later,
    count-append i before (buf ∷ after),
    count-append i before after,
    count-append i list.free (buf ∷ []),
  );
  sized = All-append_both _ list.free (buf ∷ []) h.sized (c, tt);
  few = omega (arith, n, length-append list.free (buf ∷ []));
}

return_buffer-IsPool :
    (list : ScriptFreeList) (before after : List Buffer) (buf : Buffer)
    → IsPool (record { list = list; lent = before ++ (buf ∷ after) })
    → IsPool (record { list = return_buffer buf list; lent = before ++ after })
unfolding return_buffer send
return_buffer-IsPool list before after buf h =
    let unchanged = dropped-IsPool list before after buf h in
    elim (Bool-cases (buf.cap == free_list_max_script_size)) [
      | inr other ↦ rw other unchanged
      | inl same ↦
          let c : buf.cap ≡ free_list_max_script_size = ground (arith, same) in
          rw same (elim (Bool-cases (ltb (length list.free) free_list_max_items)) [
            | inr full ↦ rw full unchanged
            | inl space ↦
                let n : length list.free < free_list_max_items = ground (arith, space) in
                rw space (send-IsPool list before after buf c n h)
          ])
    ]

Step-IsPool : (p q : Pool) → Step p q → IsPool p → IsPool q
Step-IsPool p q (borrows size list lent) h = borrow-IsPool size list lent h
Step-IsPool p q (returns list before buf after) h = return_buffer-IsPool list before after buf h

received-cap :
    (size : ℕ) (s : ScriptFreeList) (free : List Buffer)
    → All (λ b. b.cap ≡ free_list_max_script_size) free
    → size ≤ free_list_max_script_size
    → size ≤ (receive s free).buffer.cap
unfolding receive allocate
received-cap size s [] a fits = fits
received-cap size s (b ∷ rest) a fits = omega (arith, a.0, fits)

-- A buffer that is borrowed has room for the size that is asked for.
borrow-cap : (size : ℕ) (p : Pool) → IsPool p → size ≤ (borrow size p.list).buffer.cap
unfolding borrow allocate
borrow-cap size p h = elim (Bool-cases (ltb free_list_max_script_size size)) [
  | inl large ↦ rw large (omega arith)
  | inr small ↦
      let fits : size ≤ free_list_max_script_size = ground (arith, small) in
      rw small (received-cap size p.list p.list.free h.sized fits)
]

abbrev pub start : Pool
start = record { list = script_pool; lent = [] }

start-IsPool : IsPool start
unfolding count
start-IsPool = record {
  once = λ i. omega arith;
  fresh = λ i later. refl;
  sized = tt;
  few = omega arith;
}

Reaches-IsPool : (p q : Pool) → IsPool p → Reaches p q → IsPool q
Reaches-IsPool p q h (here _) = h
Reaches-IsPool p q h (then_step _ o _ before last) =
    Step-IsPool o q last (Reaches-IsPool p o h before)

-- After any number of steps of any callers from the empty pool, in which each returns only buffers
-- that are lent to it: no buffer is lent twice, or lent while it is in the pool; the pool holds at
-- most 12500 buffers, each of 512 bytes; and a buffer that is borrowed next has room for its size.
pub script_pool-IsPool :
    (p : Pool) → Reaches start p → IsPool p × ((size : ℕ) → size ≤ (borrow size p.list).buffer.cap)
script_pool-IsPool p r =
    let h = Reaches-IsPool start p start-IsPool r in (h, λ size. borrow-cap size p h)
