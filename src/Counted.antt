-- ===== src/Counted.antt =====
-- The lists that several messages carry behind their count: the messages' Add methods, and the
-- loops of their decoders and encoders.
pub mod Transfer
use go_wire.Prelude.{◌+◌, ltb, ◌++◌, if◌then◌else◌, List, suc, ◌∷◌, ℕ, String, length, [], zero}
use go_wire.Io.{
  Read, refuse_if, ◌>>=◌, Error, ◌>>◌, Put, message_error, pure, fail, ◌▸◌, write_each,
}
use go_wire.VarInt.{write_var_int, read_var_int}

-- What an Add method returns: the list with the item, or the error.
pub data Added {ℓ} (A : Type ℓ) : Type ℓ where
  added : A → Added A
  too_many : Error → Added A

-- `if len(list)+1 > max { return messageError(name, …) }; list = append(list, x)`
unfoldable pub add_bounded {ℓ} : {A : Type ℓ} → String → ℕ → List A → A → Added (List A)
add_bounded name max xs x =
    if ltb max (length xs + 1) then too_many (message_error name) else added (xs ++ (x ∷ []))

-- The caller returns the error of an Add method.
unfoldable pub or_fail {ℓ} : {A : Type ℓ} → Added A → Read A
or_fail (added xs) = pure xs
or_fail (too_many e) = fail e

-- The caller ignores the error; the list is then as it was.
unfoldable pub or_keep {ℓ} : {A : Type ℓ} → A → Added A → Read A
or_keep old (added xs) = pure xs
or_keep old (too_many e) = pure old

-- `for i := 0; i < n; i++`, each round reading an item with `m` and adding it by `add`
unfoldable pub read_onto {ℓ} :
    {A : Type ℓ} → Read A → (List A → A → Read (List A)) → ℕ → List A → Read (List A)
read_onto m add zero xs = pure xs
read_onto m add (suc n) xs = do x ← m; more ← add xs x; read_onto m add n more

-- The count, its check, and the loop.
unfoldable pub read_counted {ℓ} :
    {A : Type ℓ} → String → ℕ → Read A → (List A → A → Read (List A)) → Read (List A)
read_counted name max m add = do
  count ← read_var_int
  refuse_if (ltb max count) (message_error name)
  read_onto m add count []

-- The count and the loop of an encoder.
unfoldable pub write_counted {ℓ} : {A : Type ℓ} → (A → Put) → List A → Put
write_counted f xs = write_var_int (length xs) ▸ write_each f xs
