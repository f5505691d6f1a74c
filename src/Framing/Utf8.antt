-- ===== src/Framing/Utf8.antt =====
-- utf8.ValidString of the standard library, which message.go asks of a command.
use go_wire.Prelude.{
  ◌∷◌, Bool, false, List, ◌&&◌, [], true, if◌then◌else◌, ◌==◌, ℕ, ltb, some, leb, none, Option,
}

-- the range of a byte that continues a character
abbrev pub Range : Type 0
Range = ℕ × ℕ

abbrev in_range : Range → ℕ → Bool
in_range (lo, hi) b = leb lo b && leb b hi

abbrev continuation : Range
continuation = (0x80, 0xbf)

-- the bytes that must follow the first byte of a character
unfoldable pub after_first : ℕ → Option (List Range)
after_first b =
    if ltb b 0x80
    then some []
    else if in_range (0xc2, 0xdf) b
    then some (continuation ∷ [])
    else if b == 0xe0
    then some ((0xa0, 0xbf) ∷ continuation ∷ [])
    else if b == 0xed
    then some ((0x80, 0x9f) ∷ continuation ∷ [])
    else if in_range (0xe1, 0xef) b
    then some (continuation ∷ continuation ∷ [])
    else if b == 0xf0
    then some ((0x90, 0xbf) ∷ continuation ∷ continuation ∷ [])
    else if in_range (0xf1, 0xf3) b
    then some (continuation ∷ continuation ∷ continuation ∷ [])
    else if b == 0xf4
    then some ((0x80, 0x8f) ∷ continuation ∷ continuation ∷ [])
    else none

-- with the ranges that the character begun still awaits
unfoldable pub valid_from : List Range → List ℕ → Bool
valid_from [] [] = true
valid_from (r ∷ rs) [] = false
valid_from [] (b ∷ s) = elim (after_first b) [ none ↦ false | some rs ↦ valid_from rs s ]
valid_from (r ∷ rs) (b ∷ s) = in_range r b && valid_from rs s

unfoldable pub valid_string : List ℕ → Bool
valid_string s = valid_from [] s
