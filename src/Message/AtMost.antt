-- ===== src/Message/AtMost.antt =====
-- How much a writer leaves in its buffer, whether it writes to the end or not: one rule for each way
-- to build it.
use native.Mathlib.Nat.{mul-le-mul_right}
use go_wire.Prelude.{
  ℕ, ◌∷◌, All, length, ◌+◌, arith, List, [], length-append, true, Bool, ◌≤◌, ◌*◌, false,
}
use go_wire.Binary.{le}
use go_wire.Counted.{write_counted}
use go_wire.Element.{Kind, width, Value, Fits, write_element, write_elements, AllFit, Values}
use go_wire.Element.Size.{Writes-element, Writes-elements}
use go_wire.Io.{write_each, refused, written, Error, ◌▸◌, done, Put, refuse_put}
use go_wire.Io.Writes.{Writes, length-written, sum_of}
use go_wire.VarBytes.{write_var_bytes}
use go_wire.VarBytes.Transfer.{Writes-var_bytes}
use go_wire.VarInt.{var_int_serialize_size}
use go_wire.VarInt.Transfer.{Writes-var_int}

-- `p` leaves at most n bytes.
pub record AtMost (p : Put) (n : ℕ) : Type 0 where
  pub within : length (written p) ≤ n

pub AtMost-Writes : {p : Put} {m n : ℕ} → Writes p m → m ≤ n → AtMost p n
AtMost-Writes h le = record { within = omega (arith, length-written h, le) }

pub AtMost-all : {p : Put} {n : ℕ} → Writes p n → AtMost p n
AtMost-all h = AtMost-Writes h (omega arith)

pub AtMost-le : {p : Put} {m n : ℕ} → AtMost p m → m ≤ n → AtMost p n
AtMost-le h le = record { within = omega (arith, h.within, le) }

pub AtMost-nothing : {n : ℕ} → AtMost (done []) n
unfolding written
AtMost-nothing = record { within = omega arith }

pub AtMost-▸ : {p q : Put} {m n : ℕ} → AtMost p m → AtMost q n → AtMost (p ▸ q) (m + n)
unfolding written
AtMost-▸ {p = done a} {q = done b} h k = record {
  within = omega (arith, h.within, k.within, length-append a b);
}
AtMost-▸ {p = done a} {q = refused e b} h k = record {
  within = omega (arith, h.within, k.within, length-append a b);
}
AtMost-▸ {p = refused e a} {q = q} h k = record { within = omega (arith, h.within) }

pub AtMost-refuse_put :
    (b : Bool) (e : Error) {p : Put} {n : ℕ} → AtMost p n → AtMost (refuse_put b e p) n
unfolding refuse_put written
AtMost-refuse_put true e h = record { within = omega arith }
AtMost-refuse_put false e h = h

pub AtMost-each {ℓ κ} :
    {A : Type ℓ} (P : A → Type κ) (f : A → Put) (n : ℕ)
    → ((a : A) → P a → AtMost (f a) n)
    → (xs : List A) → All P xs
    → AtMost (write_each f xs) (length xs * n)
unfolding write_each
AtMost-each P f n h [] p = AtMost-nothing
AtMost-each P f n h (x ∷ xs) p =
    AtMost-le (AtMost-▸ (h x p.0) (AtMost-each P f n h xs p.1)) (omega arith)

pub var_int_serialize_size_mono :
    (m n : ℕ) → m ≤ n → var_int_serialize_size m ≤ var_int_serialize_size n
unfolding var_int_serialize_size
var_int_serialize_size_mono m n le = ground (arith, le)

pub var_int_serialize_size_bound : (m : ℕ) → var_int_serialize_size m ≤ 9
unfolding var_int_serialize_size
var_int_serialize_size_bound m = ground arith

pub AtMost-var_bytes :
    (n : ℕ) (bs : List ℕ)
    → length bs ≤ n
    → AtMost (write_var_bytes bs) (var_int_serialize_size n + n)
AtMost-var_bytes n bs le =
    AtMost-Writes (Writes-var_bytes bs)
      (omega (arith, le, var_int_serialize_size_mono (length bs) n le))

-- An array of bytes behind a length of any form.
pub AtMost-var_bytes_9 : (n : ℕ) (bs : List ℕ) → length bs ≤ n → AtMost (write_var_bytes bs) (9 + n)
AtMost-var_bytes_9 n bs le =
    AtMost-le (AtMost-var_bytes n bs le) (omega (arith, var_int_serialize_size_bound n))

pub AtMost-element : (k : Kind) (v : Value k) → Fits k v → AtMost (write_element k v) (width k)
AtMost-element k v h = AtMost-Writes (Writes-element k v h) (omega arith)

pub AtMost-elements :
    (ks : List Kind) (vs : Values ks)
    → AllFit ks vs
    → AtMost (write_elements ks vs) (sum_of width ks)
AtMost-elements ks vs h = AtMost-Writes (Writes-elements ks vs h) (omega arith)

-- A list of at most `max` items, each in at most `n` bytes.
pub AtMost-counted {ℓ κ} :
    {A : Type ℓ} (P : A → Type κ) (f : A → Put) (n max : ℕ)
    → ((a : A) → P a → AtMost (f a) n)
    → (xs : List A) → length xs ≤ max
    → All P xs
    → AtMost (write_counted f xs) (9 + max * n)
unfolding write_counted
AtMost-counted P f n max h xs few p =
    AtMost-▸ (AtMost-Writes (Writes-var_int (length xs)) (var_int_serialize_size_bound (length xs)))
      (AtMost-le (AtMost-each P f n h xs p) (mul-le-mul_right n few))
