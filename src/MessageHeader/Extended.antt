-- ===== src/MessageHeader/Extended.antt =====
-- The header of an extended message.
use go_wire.Prelude.{
  subst, arith, ℕ, refl, ap, Bool-cases, length, [], ◌≤◌, ◌∷◌, ◌≡◌, List, ◌+◌, inl, inr, zero, ◌∙◌,
  suc,
}
use go_wire.Binary.{uint32, ByteOrder, little, uint_of, of_order}
use go_wire.Element.{bitcoin_net, command, bytes4, Values, read_element, uint32_kind, Value, Kind}
use go_wire.Io.{Outcome, ok, read_full, IsInput, ◌>>=◌}
use go_wire.Io.Takes.{Takes-read_full, >>=-eq-ok}
use go_wire.MessageHeader.{
  message_header_kinds, parse_header, MessageHeader, announces_extension, extended, trim_zeros,
  read_kept, read_message_header,
}

-- The reader has enough bytes, and takes n of them.
abbrev Given : {A : Type 0} → ℕ → List ℕ → Outcome A → Type 0
Given {A = A} n s o = (a : A) × (rest : List ℕ) × (o ≡ ok a rest) × (length rest + n ≡ length s)

read_full-Given : (n : ℕ) (s : List ℕ) → n ≤ length s → Given n s (read_full n s)
unfolding read_full
read_full-Given zero s h = ([], s, refl, omega arith)
read_full-Given (suc n) [] h = absurd (omega (arith, h))
read_full-Given (suc n) (b ∷ s) h =
    let (a, rest, e, l) = read_full-Given n s (omega (arith, h)) in
    (b ∷ a, rest, rw e refl, omega (arith, l))

uint_of-Given : (o : ByteOrder) (n : ℕ) (s : List ℕ) → n ≤ length s → Given n s (uint_of o n s)
unfolding uint_of
uint_of-Given o n s h =
    let (a, rest, e, l) = read_full-Given n s h in
    (of_order o a, rest, rw (uint_of, ◌>>=◌, e) refl, l)

length-zero : (s : List ℕ) → length s ≡ 0 → s ≡ []
length-zero [] h = refl
length-zero (b ∷ s) h = absurd (omega (arith, h))

kept_left :
    (k : Kind) (ks : List Kind) (s : List ℕ) {v : Value k} {rest : List ℕ}
    → read_element k s ≡ ok v rest
    → (read_kept (k ∷ ks) s).1 ≡ (read_kept ks rest).1
unfolding read_kept
kept_left k ks s e = rw (read_kept, e) refl

header_left : (s : List ℕ) → length s ≡ 24 → (read_kept message_header_kinds s).1 ≡ []
unfolding read_kept read_element uint32
header_left s h =
    let (a, s1, e1, l1) = uint_of-Given little 4 s (omega (arith, h)) in
    let (b, s2, e2, l2) = read_full-Given 12 s1 (omega (arith, h, l1)) in
    let (c, s3, e3, l3) = uint_of-Given little 4 s2 (omega (arith, h, l1, l2)) in
    let (d, s4, e4, l4) = read_full-Given 4 s3 (omega (arith, h, l1, l2, l3)) in
    let none_left : s4 ≡ [] = length-zero s4 (omega (arith, h, l1, l2, l3, l4)) in
    kept_left bitcoin_net (command ∷ uint32_kind ∷ bytes4 ∷ []) s e1
    ∙ kept_left command (uint32_kind ∷ bytes4 ∷ []) s1 e2
    ∙ kept_left uint32_kind (bytes4 ∷ []) s2 e3
    ∙ kept_left bytes4 [] s3 e4
    ∙ none_left

parse_header-unextended :
    (p : Values message_header_kinds × List ℕ) → p.1 ≡ [] → (parse_header p).ext_length ≡ 0
unfolding parse_header extended read_kept read_element read_full
parse_header-unextended ((m, (c, (n, (k, _)))), hr) e =
    rw e (elim (Bool-cases (announces_extension (trim_zeros c) n k)) [
      | inl yes_ext ↦ rw yes_ext refl
      | inr no_ext ↦ rw no_ext refl
    ])

-- No header that is read from an input of bytes, shorter than 2 ^ 63, has an extended length other
-- than 0.
pub read_message_header-unextended :
    (s : List ℕ) (hdr : MessageHeader) (rest : List ℕ)
    → IsInput s
    → read_message_header s ≡ ok hdr rest
    → hdr.ext_length ≡ 0
unfolding read_message_header
read_message_header-unextended s hdr rest i e =
    let (bs, mid, er, last) = >>=-eq-ok (read_full 24 s) _ e in
    let (cs, es, q) = (Takes-read_full 24).at s bs mid i er in
    let same : parse_header (read_kept message_header_kinds bs) ≡ hdr = cc in
    subst (λ h. h.ext_length ≡ 0) same
      (parse_header-unextended _ (header_left bs (ap length q.0 ∙ q.1)))
