-- ===== src/Io.antt =====
-- Readers and writers: Go's io.Reader over a byte stream that ends, a bytes.Buffer as the writer,
-- and error.go.
pub mod Reads
pub mod Takes
pub mod Agrees
pub mod Writes
pub mod Codec
use go_wire.Prelude.{
  Bool, true, false, ℕ, zero, suc, ◌<◌, ◌^◌, String, List, [], ◌∷◌, ◌++◌, length, All,
}

-- What a reader or a check returns in place of nil: the two results of io.ReadFull on a stream
-- that ends, a MessageError by the function that it names, and the plain errors of the package.
pub data Error : Type 0 where
  eof : Error
  unexpected_eof : Error
  message_error : String → Error
  plain_error : String → Error

-- A call that reads: its result or its error, and what is left of the stream.
pub data Outcome {ℓ} (A : Type ℓ) : Type ℓ where
  ok : A → List ℕ → Outcome A
  err : Error → List ℕ → Outcome A

abbrev pub Read {ℓ} : Type ℓ → Type ℓ
Read A = List ℕ → Outcome A

infixl 5 ◌>>=◌ ◌>>◌
abbrev pub ◌>>=◌ {ℓ κ} : {A : Type ℓ} {B : Type κ} → Read A → (A → Read B) → Read B
◌>>=◌ m f s = elim (m s) [ ok a rest ↦ f a rest | err e rest ↦ err e rest ]

abbrev pub ◌>>◌ {ℓ} : {B : Type ℓ} → Read (Unit {0}) → Read B → Read B
m >> k = m >>= λ _. k

abbrev pub pure {ℓ} : {A : Type ℓ} → A → Read A
pure a s = ok a s

abbrev pub fail {ℓ} : {A : Type ℓ} → Error → Read A
fail e s = err e s

-- `if b { return e }` and the rest of the body
unfoldable pub refuse_if : Bool → Error → Read (Unit {0})
refuse_if true e = fail e
refuse_if false e = pure tt

-- `for i := 0; i < n; i++`, each round reading one item
unfoldable pub read_times {ℓ} : {A : Type ℓ} → ℕ → Read A → Read (List A)
read_times zero m = pure []
read_times (suc n) m = do a ← m; rest ← read_times n m; pure (a ∷ rest)

-- io.ReadFull into a buffer of n bytes: eof where the stream is at its end, unexpected_eof where it
-- ends after some of them.
abbrev pub with_head : ℕ → Outcome (List ℕ) → Outcome (List ℕ)
with_head b (ok bs rest) = ok (b ∷ bs) rest
with_head b (err e rest) = err unexpected_eof rest

unfoldable pub read_full : ℕ → Read (List ℕ)
read_full zero s = ok [] s
read_full (suc n) [] = err eof []
read_full (suc n) (b ∷ s) = with_head b (read_full n s)

-- What has been written to the buffer, and the error that stopped the writing.
pub data Put : Type 0 where
  done : List ℕ → Put
  refused : Error → List ℕ → Put

-- `if err := p; err != nil { return err }; q`
infixr 6 ◌▸◌
abbrev pub ◌▸◌ : Put → Put → Put
done bs ▸ done cs = done (bs ++ cs)
done bs ▸ refused e cs = refused e (bs ++ cs)
refused e bs ▸ q = refused e bs

-- a loop that writes each item and returns on the first error
unfoldable pub write_each {ℓ} : {A : Type ℓ} → (A → Put) → List A → Put
write_each f [] = done []
write_each f (a ∷ rest) = f a ▸ write_each f rest

-- what the buffer holds after the call
unfoldable pub written : Put → List ℕ
written (done bs) = bs
written (refused e bs) = bs

-- `if b { return e }` before the rest of the body
unfoldable pub refuse_put : Bool → Error → Put → Put
refuse_put true e p = refused e []
refuse_put false e p = p

-- w.Write(bs)
abbrev pub write : List ℕ → Put
write bs = done bs

abbrev pub IsByte : ℕ → Type 0
IsByte b = b < 256

-- A stream of bytes that Go can address.
pub record IsInput (s : List ℕ) : Type 0 where
  pub bytes : All IsByte s
  pub short : length s < 2 ^ 63
