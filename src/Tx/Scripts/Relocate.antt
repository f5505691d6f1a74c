-- ===== src/Tx/Scripts/Relocate.antt =====
-- Copying the scripts into their shared buffer keeps every one of them.
use native.Mathlib.Nat.{add_assoc}
use go_wire.Prelude.{
  ℕ, zero, suc, ◌+◌, ◌-◌, ◌^◌, ◌<◌, ◌≡◌, refl, sym, ap, List, [], ◌∷◌, ◌++◌, length, length-append,
  length-replicate, drop-append, take-append, replicate, append_assoc, map, arith,
}
use go_wire.Tx.Data.{MsgTx}
use go_wire.Tx.Scripts.{
  add64, copy_at, Span, slice, place, total_script_size, in_scripts, out_scripts, relocate,
  relocate_scripts, set_pk_script, assign_each, set_signature_script,
}

-- `copy` into an array of the same length
pub copy-whole : (n : ℕ) (bs : List ℕ) → length bs ≡ n → copy_at (replicate n 0) 0 bs ≡ bs
unfolding copy_at
copy-whole zero [] h = refl
copy-whole zero (b ∷ bs) h = absurd (omega (arith, h))
copy-whole (suc n) [] h = absurd (omega (arith, h))
copy-whole (suc n) (b ∷ bs) h = ap (λ l. b ∷ l) (copy-whole n bs (omega (arith, h)))

-- all scripts, one after the other
abbrev pub joined : List (List ℕ) → List ℕ
joined [] = []
joined (s ∷ rest) = s ++ joined rest

copy_here :
    (mid post src : List ℕ) → length mid ≡ length src → copy_at (mid ++ post) 0 src ≡ src ++ post
unfolding copy_at
copy_here [] [] [] h = refl
copy_here [] (p ∷ post) [] h = refl
copy_here [] post (x ∷ src) h = absurd (omega arith)
copy_here (m ∷ mid) post [] h = absurd (omega arith)
copy_here (m ∷ mid) post (x ∷ src) h = ap (λ l. x ∷ l) (copy_here mid post src (omega arith))

-- The bytes before the offset and those past the script stay as they are.
copy_between :
    (pre mid post src : List ℕ)
    → length mid ≡ length src
    → copy_at (pre ++ (mid ++ post)) (length pre) src ≡ pre ++ (src ++ post)
unfolding copy_at
copy_between [] mid post src h = copy_here mid post src h
copy_between (p ∷ pre) mid post src h = ap (λ l. p ∷ l) (copy_between pre mid post src h)

abbrev zeros : ℕ → List ℕ
zeros n = replicate n 0

zeros_split : (m n : ℕ) → zeros (m + n) ≡ zeros m ++ zeros n
zeros_split zero n = let e : 0 + n ≡ n = omega arith in rw e
zeros_split (suc m) n =
    let e : suc m + n ≡ suc (m + n) = omega arith in rw e (ap (λ l. 0 ∷ l) (zeros_split m n))

-- the slices of scripts that stand one after the other from `offset` on
pub spans_of : ℕ → List (List ℕ) → List Span
spans_of offset [] = []
spans_of offset (s ∷ rest) =
    record { start = offset; stop = offset + length s } ∷ spans_of (offset + length s) rest

-- One round of the copying loop: the script follows what was placed before.
copy_next :
    (pre s : List ℕ) (n : ℕ)
    → copy_at (pre ++ zeros (length s + n)) (length pre) s ≡ (pre ++ s) ++ zeros n
copy_next pre s n =
    rw (zeros_split, copy_between pre (zeros (length s)) (zeros n) s (length-replicate _ 0))
      (sym (append_assoc pre s (zeros n)))

place_lem :
    (pre : List ℕ) (ss : List (List ℕ)) (k : ℕ)
    → length pre + length (joined ss) < 2 ^ 64
    → place (pre ++ zeros (length (joined ss) + k)) (length pre) ss ≡ record {
      scripts = pre ++ (joined ss ++ zeros k);
      offset = length pre + length (joined ss);
      spans = spans_of (length pre) ss;
    }
unfolding place spans_of
place_lem pre [] k h =
    let e : 0 + k ≡ k = omega arith in
    let e' : length pre + 0 ≡ length pre = omega arith in rw (e, e')
place_lem pre (s ∷ rest) k h =
    let total : length (s ++ joined rest) + k ≡ length s + (length (joined rest) + k) =
      omega (arith, length-append s (joined rest)) in
    let end : add64 (length pre) (length s) ≡ length (pre ++ s) =
      omega (arith, length-append s (joined rest), length-append pre s) in
    let later =
      place_lem (pre ++ s) rest k
        (omega (arith, length-append s (joined rest), length-append pre s)) in
    rw (total, copy_next pre s (length (joined rest) + k), end, later)
      (simp (append_assoc, length-append, add_assoc))

total_script_size_lem :
    (total : ℕ) (ss : List (List ℕ))
    → total + length (joined ss) < 2 ^ 64
    → total_script_size total ss ≡ total + length (joined ss)
unfolding total_script_size
total_script_size_lem total [] h = omega arith
total_script_size_lem total (s ∷ rest) h =
    let e = length-append s (joined rest) in
    let sum : add64 total (length s) ≡ total + length s = omega (arith, e) in
    rw sum (omega (arith, e, total_script_size_lem (total + length s) rest (omega (arith, e))))

slice_lem :
    (pre s post : List ℕ)
    → slice (pre ++ (s ++ post)) (record { start = length pre; stop = length pre + length s }) ≡ s
unfolding slice
slice_lem pre s post =
    let e : length pre + length s - length pre ≡ length s = omega arith in
    rw (e, drop-append pre (s ++ post)) (take-append s post)

-- Each item is given the script that it had.
pub assign_each_lem {ℓ} :
    {A : Type ℓ} (script : A → List ℕ) (set : A → List ℕ → A)
    → ((a : A) → set a (script a) ≡ a)
    → (pre post : List ℕ) (xs : List A)
    → assign_each set
        (pre ++ (joined (map script xs) ++ post))
        xs
        (spans_of (length pre) (map script xs))
      ≡ xs
unfolding assign_each spans_of
assign_each_lem script set keeps pre post [] = refl
assign_each_lem script set keeps pre post (x ∷ xs) =
    let s = script x in
    let r = joined (map script xs) in
    let same : slice (pre ++ ((s ++ r) ++ post))
          (record { start = length pre; stop = length pre + length s })
        ≡ s =
      rw (append_assoc s r post) (slice_lem pre s (r ++ post)) in
    let others : assign_each set (pre ++ ((s ++ r) ++ post)) xs
          (spans_of (length pre + length s) (map script xs))
        ≡ xs =
      rw (append_assoc s r post, ← append_assoc pre s (r ++ post), ← length-append pre s)
        (assign_each_lem script set keeps (pre ++ s) post xs) in
    rw (same, others, keeps x)

-- The two kinds of script stand one behind the other in the buffer.
pub relocate_scripts_lem :
    (is os : List (List ℕ))
    → length (joined is) + length (joined os) < 2 ^ 64
    → relocate_scripts is os ≡ record {
      scripts = joined is ++ (joined os ++ []);
      in_spans = spans_of 0 is;
      out_spans = spans_of (length (joined is)) os;
    }
unfolding relocate_scripts
relocate_scripts_lem is os h =
    let n = length (joined is) in
    let k = length (joined os) in
    let total : total_script_size (total_script_size 0 is) os ≡ n + k =
      rw (total_script_size_lem 0 is (omega arith))
        (omega (arith, total_script_size_lem (0 + n) os (omega arith))) in
    let first = place_lem [] is k (omega arith) in
    let plain : k + 0 ≡ k = omega arith in
    let start : 0 + n ≡ n = omega arith in
    let second = rw plain at (place_lem (joined is) os 0 (omega arith)) in
    rw (total, first, start, second) refl

-- While the scripts' total length fits 64 bits, the copying changes no script.
pub relocate_lem :
    (msg : MsgTx)
    → length (joined (in_scripts msg)) + length (joined (out_scripts msg)) < 2 ^ 64
    → relocate msg ≡ msg
unfolding relocate
relocate_lem msg h =
    let ins =
      assign_each_lem (λ ti. ti.signature_script) set_signature_script (λ ti. refl) []
        (joined (out_scripts msg) ++ []) msg.tx_in in
    let outs =
      assign_each_lem (λ to. to.pk_script) set_pk_script (λ to. refl) (joined (in_scripts msg)) []
        msg.tx_out in
    rw (relocate_scripts_lem (in_scripts msg) (out_scripts msg) h, ins, outs) refl
