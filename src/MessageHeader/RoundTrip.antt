-- ===== src/MessageHeader/RoundTrip.antt =====
-- Headers on the wire.
use go_wire.Prelude.{
  length, suc, ◌++◌, ℕ, List, false, All, append-nil, [], subst, ◌^◌, ◌<◌, sym, arith, zero, ◌∙◌,
  ◌≤◌, ◌≡◌, refl, replicate, ap, ◌∷◌,
}
use go_wire.Element.{AllFit, Kind, read_element, read_elements, Values}
use go_wire.Element.Size.{Writes-elements}
use go_wire.Element.Transfer.{RoundTrips-elements}
use go_wire.Io.{read_full, ◌>>=◌, ok, IsByte}
use go_wire.Io.Reads.{RoundTrips, read_full-append}
use go_wire.Io.Takes.{>>=-eq-ok}
use go_wire.Io.Writes.{done-injective, sum_of}
use go_wire.MessageHeader.{
  command_size, trim_zeros, message_header_size, message_header_kinds, read_message_header,
  read_kept, announces_extension, write_message_header, parse_header, trim_step, MessageHeader,
}
use go_wire.Tx.Scripts.{copy_at}

trim_zeros-replicate : (n : ℕ) → trim_zeros (replicate n 0) ≡ []
unfolding trim_zeros trim_step
trim_zeros-replicate zero = refl
trim_zeros-replicate (suc n) = rw (trim_zeros-replicate n) refl

-- the array that holds the command
abbrev padded : ℕ → List ℕ → List ℕ
padded n cmd = copy_at (replicate n 0) 0 cmd

trim_zeros-padded :
    (n : ℕ) (cmd : List ℕ) → length cmd ≤ n → trim_zeros (padded n cmd) ≡ trim_zeros cmd
unfolding trim_zeros copy_at trim_step
trim_zeros-padded zero [] h = refl
trim_zeros-padded zero (x ∷ cmd) h = absurd (omega (arith, h))
trim_zeros-padded (suc n) [] h = rw (trim_zeros-replicate n) refl
trim_zeros-padded (suc n) (x ∷ cmd) h =
    ap (trim_step x) (trim_zeros-padded n cmd (omega (arith, h)))

abbrev zeros : ℕ → List ℕ
zeros n = replicate n 0

zeros-fit : (n : ℕ) → (length (zeros n) ≡ n) × All IsByte (zeros n)
zeros-fit zero = (refl, tt)
zeros-fit (suc n) = let (l, b) = zeros-fit n in (ap suc l, (omega arith, b))

padded-fits :
    (n : ℕ) (cmd : List ℕ)
    → length cmd ≤ n
    → All IsByte cmd
    → (length (padded n cmd) ≡ n) × All IsByte (padded n cmd)
unfolding copy_at
padded-fits zero [] h b = (refl, tt)
padded-fits zero (x ∷ cmd) h b = absurd (omega (arith, h))
padded-fits (suc n) [] h b = zeros-fit (suc n)
padded-fits (suc n) (x ∷ cmd) h (b, bs) =
    let (l, c) = padded-fits n cmd (omega (arith, h)) bs in (omega (arith, l), (b, c))

read_kept-ok :
    (ks : List Kind) (s : List ℕ) (vs : Values ks) (rest : List ℕ)
    → read_elements ks s ≡ ok vs rest
    → read_kept ks s ≡ (vs, rest)
unfolding read_kept read_elements
read_kept-ok [] s vs rest e = cc
read_kept-ok (k ∷ ks) s vs rest e =
    let (v, mid, ev, later) = >>=-eq-ok (read_element k s) _ e in
    let (ws, end, ew, last) = >>=-eq-ok (read_elements ks mid) _ later in
    let tail = read_kept-ok ks mid ws end ew in
    let whole : Values (k ∷ ks) × List ℕ = ((v, ws), end) in
    let same : whole ≡ (vs, rest) = cc in rw (read_kept, ev, tail) same

-- A header that a message without an extension has.
pub record IsPlainHeader (hdr : MessageHeader) : Type 0 where
  pub magic : hdr.magic < 2 ^ 32
  pub short : length hdr.command ≤ command_size
  pub bytes : All IsByte hdr.command
  pub trimmed : trim_zeros hdr.command ≡ hdr.command
  pub size : hdr.length < 2 ^ 32
  pub checksum : (length hdr.checksum ≡ 4) × All IsByte hdr.checksum
  pub plain : announces_extension hdr.command hdr.length hdr.checksum ≡ false
  pub no_extension : hdr.ext_length ≡ 0

abbrev wire_values : MessageHeader → Values message_header_kinds
wire_values hdr = (hdr.magic, (padded command_size hdr.command, (hdr.length, (hdr.checksum, tt))))

parse_header-wire_values :
    (hdr : MessageHeader) → IsPlainHeader hdr → parse_header (wire_values hdr, []) ≡ hdr
unfolding parse_header
parse_header-wire_values hdr h =
    let e = trim_zeros-padded command_size hdr.command h.short ∙ h.trimmed in
    rw (e, h.plain) (λ i. record hdr { ext_length = sym h.no_extension i })

-- A header with 32-bit fields and a command of at most 12 bytes that does not end in a zero byte, and
-- which does not announce an extension, is written without an error, and what is written, followed
-- by anything, reads back to it and leaves what follows.
pub read_message_header-write_message_header :
    (hdr : MessageHeader)
    → IsPlainHeader hdr
    → RoundTrips (write_message_header hdr) read_message_header hdr
unfolding read_message_header write_message_header sum_of
read_message_header-write_message_header hdr h =
    let fits : AllFit message_header_kinds (wire_values hdr) = (
      h.magic,
      (padded-fits command_size hdr.command h.short h.bytes, (h.size, (h.checksum, tt))),
    ) in
    let r = RoundTrips-elements message_header_kinds (wire_values hdr) fits in
    let w = Writes-elements message_header_kinds (wire_values hdr) fits in
    let e = done-injective (sym r.written ∙ w.complete) in
    let all =
      read_kept-ok message_header_kinds r.bytes (wire_values hdr) []
        (rw (append-nil r.bytes) at (r.reads [])) in
    let n : length r.bytes ≡ message_header_size = ap length e ∙ w.size in
    record {
      bytes = r.bytes;
      written = r.written;
      reads = λ rest.
          let full : read_full message_header_size (r.bytes ++ rest) ≡ ok r.bytes rest =
            subst (λ k. read_full k (r.bytes ++ rest) ≡ ok r.bytes rest) n
              (read_full-append r.bytes rest) in
          rw (◌>>=◌, full, all, parse_header-wire_values hdr h) refl;
    }
