-- ===== src/VarBytes/Transfer.antt =====
-- Byte arrays behind their length on the wire.
use go_wire.Prelude.{
  ◌+◌, ℕ, ◌^◌, ◌<◌, ◌≤◌, ◌≡◌, refl, ap, List, [], ◌++◌, length, arith, String, ltb, ltb→le, All,
  append-nil, le→ltb,
}
use go_wire.Binary.Transfer.{RoundTrips-read_full}
use go_wire.Io.{done, ◌▸◌, ◌>>=◌, IsByte, IsInput, ok, written}
use go_wire.Io.Reads.{RoundTrips, RoundTrips-bind, RoundTrips-last}
use go_wire.Io.Takes.{Takes, Takes-bind, Takes-pure, Takes-fail, Takes-if, Takes-read_full}
use go_wire.Io.Writes.{Writes, Writes-▸, Writes-done}
use go_wire.Limits.{max_message_payload}
use go_wire.VarBytes.{
  bytes_after, read_var_bytes, read_var_string, read_script, write_var_bytes, write_var_string,
}
use go_wire.VarInt.{var_int_serialize_size, read_var_int, write_var_int}
use go_wire.VarInt.Transfer.{RoundTrips-var_int, Takes-read_var_int, Writes-var_int}

RoundTrips-bytes_after :
    (name : String) (max : ℕ) (bs : List ℕ)
    → length bs ≤ max
    → RoundTrips (done bs) (bytes_after name max (length bs)) bs
unfolding bytes_after
RoundTrips-bytes_after name max bs h =
    rw (le→ltb max (length bs) h)
      (RoundTrips-last _ (RoundTrips-read_full (length bs) bs refl) (λ s. refl))

-- The three readers differ in the error that they return alone.
RoundTrips-counted :
    (name : String) (max : ℕ) (bs : List ℕ)
    → length bs < 2 ^ 64
    → length bs ≤ max
    → RoundTrips (write_var_int (length bs) ▸ done bs) (read_var_int >>= bytes_after name max) bs
RoundTrips-counted name max bs w h =
    RoundTrips-bind _ (RoundTrips-var_int (length bs) w) (RoundTrips-bytes_after name max bs h)

-- An array of at most `max` bytes, fewer than 2 ^ 64, is written without an error, and reads back
-- from what is written, whatever follows.
pub RoundTrips-var_bytes :
    (max : ℕ) (bs : List ℕ)
    → length bs < 2 ^ 64
    → length bs ≤ max
    → RoundTrips (write_var_bytes bs) (read_var_bytes max) bs
unfolding write_var_bytes read_var_bytes
RoundTrips-var_bytes max bs = RoundTrips-counted _ max bs

pub RoundTrips-script :
    (max : ℕ) (bs : List ℕ)
    → length bs < 2 ^ 64
    → length bs ≤ max
    → RoundTrips (write_var_bytes bs) (read_script max) bs
unfolding write_var_bytes read_script
RoundTrips-script max bs = RoundTrips-counted _ max bs

pub RoundTrips-var_string :
    (ebs : ℕ) (bs : List ℕ)
    → length bs < 2 ^ 64
    → length bs ≤ max_message_payload ebs
    → RoundTrips (write_var_string bs) (read_var_string ebs) bs
unfolding write_var_string read_var_string
RoundTrips-var_string ebs bs = RoundTrips-counted _ (max_message_payload ebs) bs

-- The array is within the bound, and what was read is its encoding.
abbrev pub IsVarBytes : ℕ → List ℕ → List ℕ → Type 0
IsVarBytes max v bs =
    (length v ≤ max) × (length v < 2 ^ 63) × All IsByte v × (write_var_bytes v ≡ done bs)

Takes-counted :
    (name : String) (max : ℕ) → Takes (read_var_int >>= bytes_after name max) (IsVarBytes max)
unfolding bytes_after write_var_bytes
Takes-counted name max = Takes-bind Takes-read_var_int λ count ds i c.
    Takes-if (ltb max count) (λ e. Takes-fail)
      λ e. Takes-bind (Takes-read_full count) λ a bs j q.
        let el : length a ≡ count = omega (arith, ap length q.0, q.1) in
        let written : write_var_int (length a) ▸ done a ≡ done (ds ++ (bs ++ [])) =
          rw (el, c.1, append-nil, q.0) in
        Takes-pure (
          omega (arith, ltb→le max count e),
          omega (arith, ap length q.0, j.short),
          rw q.0 j.bytes,
          written,
        )

pub Takes-read_var_bytes : (max : ℕ) → Takes (read_var_bytes max) (IsVarBytes max)
unfolding read_var_bytes
Takes-read_var_bytes max = Takes-counted _ max

pub Takes-script : (max : ℕ) → Takes (read_script max) (IsVarBytes max)
unfolding read_script
Takes-script max = Takes-counted _ max

pub Takes-var_string :
    (ebs : ℕ) → Takes (read_var_string ebs) (IsVarBytes (max_message_payload ebs))
unfolding read_var_string
Takes-var_string ebs = Takes-counted _ (max_message_payload ebs)

pub Writes-var_bytes :
    (bs : List ℕ) → Writes (write_var_bytes bs) (var_int_serialize_size (length bs) + length bs)
unfolding write_var_bytes
Writes-var_bytes bs = Writes-▸ (Writes-var_int (length bs)) (Writes-done bs)

-- If ReadVarBytes succeeds on an input of bytes, shorter than 2 ^ 63, then the array is no longer
-- than `max`, and the input begins with what WriteVarBytes writes for it, followed by what is left.
pub write_var_bytes-read_var_bytes :
    (max : ℕ) (s v rest : List ℕ)
    → IsInput s
    → read_var_bytes max s ≡ ok v rest
    → (s ≡ written (write_var_bytes v) ++ rest) × (length v ≤ max)
unfolding written
write_var_bytes-read_var_bytes max s v rest i e =
    let (bs, es, q) = (Takes-read_var_bytes max).at s v rest i e in (rw q.3 es, q.0)
