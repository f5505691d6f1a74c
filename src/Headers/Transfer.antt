-- ===== src/Headers/Transfer.antt =====
-- The headers message on the wire.
use go_wire.Prelude.{refl, ◌≡◌, ltb→le, arith, append-nil, false, ℕ, subst, ltb}
use go_wire.BlockHeader.{IsHeader}
use go_wire.BlockHeader.Transfer.{Takes-read_block_header, RoundTrips-block_header}
use go_wire.Counted.Transfer.{list_message-IsCodec, or_fail-Appends}
use go_wire.Headers.{
  headers_bsv_encode, write_lone_header, max_block_headers_per_msg, IsHeaderList, add_block_header,
  read_lone_header, headers_bsv_decode,
}
use go_wire.Io.{done, refuse_if}
use go_wire.Io.Codec.{IsCodec}
use go_wire.Io.Reads.{RoundTrips-bind, RoundTrips-last}
use go_wire.Io.Takes.{Takes-pass, Takes-pure, Takes-bind}
use go_wire.VarInt.{write_var_int}
use go_wire.VarInt.Transfer.{Takes-read_var_int, RoundTrips-var_int}

no_transactions : (n : ℕ) → ltb 0 n ≡ false → n ≡ 0
no_transactions n e = omega (arith, ltb→le 0 n e)

pub read_lone_header-IsCodec : IsCodec read_lone_header write_lone_header IsHeader
unfolding read_lone_header write_lone_header refuse_if
read_lone_header-IsCodec = record {
  reads_back = λ bh h.
      RoundTrips-bind _ (RoundTrips-block_header bh h)
        (RoundTrips-last _ (RoundTrips-var_int 0 (omega arith)) (λ s. refl));
  takes = Takes-bind Takes-read_block_header λ bh bs i h. Takes-bind Takes-read_var_int λ n cs j c.
      Takes-pass _ _ λ none_left.
        let e = no_transactions n none_left in
        let written : write_var_int 0 ≡ done cs = subst (λ k. write_var_int k ≡ done cs) e c.1 in
        Takes-pure (h.0, rw (h.1, written, append-nil) refl);
}

-- MsgHeaders: a list of at most 2000 headers whose fields fit is encoded without an error and reads
-- back, whatever follows; and from an input of bytes, shorter than 2 ^ 63, only such a list is
-- decoded, and what was read is its encoding.
pub headers_bsv_decode-IsCodec :
    IsCodec headers_bsv_decode headers_bsv_encode (λ msg. IsHeaderList msg.headers)
unfolding headers_bsv_decode headers_bsv_encode add_block_header
headers_bsv_decode-IsCodec =
    list_message-IsCodec _ _ (λ l. record { headers = l }) (λ msg. msg.headers)
      (or_fail-Appends _ max_block_headers_per_msg) read_lone_header-IsCodec (omega arith)
      (λ msg. refl) (λ l. refl)
