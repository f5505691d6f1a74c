-- ===== src/CompactFilters/Transfer.antt =====
-- The messages of committed filters on the wire.
use go_wire.Prelude.{
  refl, arith, le→ltb, ◌<◌, append-nil, ◌≤◌, length, List, ◌^◌, All, ap, ◌≡◌, ℕ, ltb→le,
}
use go_wire.CompactFilters.{
  add_cf_hash, cfcheckpt_bsv_encode, max_cfilter_data_size, cf_headers_bsv_encode,
  max_cf_headers_len, get_cfcheckpt_bsv_encode, get_cfheaders_bsv_encode, cf_headers_bsv_decode,
  get_cfheaders_bsv_decode, max_cf_headers_per_msg, cfcheckpt_bsv_decode, cfilter_bsv_encode,
  get_cfilters_bsv_encode, get_cfcheckpt_bsv_decode, get_cfilters_bsv_decode, cfilter_bsv_decode,
}
use go_wire.Counted.{write_counted}
use go_wire.Counted.Transfer.{RoundTrips-counted, or_keep-Appends, Takes-counted}
use go_wire.Element.{hash, Fits, write_element, uint32_kind, uint8_kind, read_element}
use go_wire.Element.Transfer.{Takes-plain, RoundTrips-element}
use go_wire.FilterMessages.Transfer.{var_bytes-IsCodec}
use go_wire.Io.{IsByte, pure, ◌>>=◌, ◌▸◌, ok, message_error}
use go_wire.Io.Codec.{refuse_put-passes, RoundTrips-written, IsCodec}
use go_wire.Io.Reads.{RoundTrips-each, RoundTrips-pass, RoundTrips-last, RoundTrips-bind}
use go_wire.Io.Takes.{Takes-pass, Takes-bind, Takes-times, Takes-pure}
use go_wire.VarInt.Transfer.{RoundTrips-var_int, Takes-read_var_int}

range_request-IsCodec {ℓ} :
    {B : Type ℓ} (make : ℕ → ℕ → List ℕ → B) (t : B → ℕ) (n : B → ℕ) (h : B → List ℕ)
    → ((b : B) → make (t b) (n b) (h b) ≡ b)
    → ((x y : ℕ) (z : List ℕ) → (t (make x y z) ≡ x) × (n (make x y z) ≡ y) × (h (make x y z) ≡ z))
    → IsCodec
        (read_element uint8_kind >>= λ x.
          read_element uint32_kind >>= λ y. read_element hash >>= λ z. pure (make x y z))
        (λ b.
          write_element uint8_kind (t b)
          ▸ write_element uint32_kind (n b)
          ▸ write_element hash (h b))
        (λ b. (t b < 2 ^ 8) × (n b < 2 ^ 32) × Fits hash (h b))
range_request-IsCodec make t n h back forth = record {
  reads_back = λ b p. RoundTrips-bind _ (RoundTrips-element uint8_kind (t b) p.0) (
      RoundTrips-bind _ (RoundTrips-element uint32_kind (n b) p.1)
        (RoundTrips-last _ (RoundTrips-element hash (h b) p.2) (λ s. ap (λ x. ok x s) (back b))));
  takes = Takes-bind (Takes-plain uint8_kind tt) λ x b0 i0 p.
      Takes-bind (Takes-plain uint32_kind tt) λ y b1 i1 q.
        Takes-bind (Takes-plain hash tt) λ z b2 i2 r.
          let (ex, ey, ez) = forth x y z in
          Takes-pure
            (rw (ex, ey, ez) (p.0, q.0, r.0), rw (ex, ey, ez, p.1, q.1, r.1, append-nil) refl);
}

-- MsgGetCFilters: with a byte, a 32-bit height and a hash of 32 bytes it is encoded without an error
-- and reads back, whatever follows; and from an input of bytes, shorter than 2 ^ 63, only such a
-- message is decoded, and what was read is its encoding.
pub get_cfilters_bsv_decode-IsCodec :
    IsCodec get_cfilters_bsv_decode get_cfilters_bsv_encode
      (λ msg. (msg.filter_type < 2 ^ 8) × (msg.start_height < 2 ^ 32) × Fits hash msg.stop_hash)
unfolding get_cfilters_bsv_decode get_cfilters_bsv_encode
get_cfilters_bsv_decode-IsCodec =
    range_request-IsCodec (λ x y z. record { filter_type = x; start_height = y; stop_hash = z })
      (λ msg. msg.filter_type) (λ msg. msg.start_height) (λ msg. msg.stop_hash) (λ msg. refl)
      (λ x y z. (refl, refl, refl))

-- MsgGetCFHeaders: with a byte, a 32-bit height and a hash of 32 bytes it is encoded without an
-- error and reads back, whatever follows; and from an input of bytes, shorter than 2 ^ 63, only such
-- a message is decoded, and what was read is its encoding.
pub get_cfheaders_bsv_decode-IsCodec :
    IsCodec get_cfheaders_bsv_decode get_cfheaders_bsv_encode
      (λ msg. (msg.filter_type < 2 ^ 8) × (msg.start_height < 2 ^ 32) × Fits hash msg.stop_hash)
unfolding get_cfheaders_bsv_decode get_cfheaders_bsv_encode
get_cfheaders_bsv_decode-IsCodec =
    range_request-IsCodec (λ x y z. record { filter_type = x; start_height = y; stop_hash = z })
      (λ msg. msg.filter_type) (λ msg. msg.start_height) (λ msg. msg.stop_hash) (λ msg. refl)
      (λ x y z. (refl, refl, refl))

-- MsgGetCFCheckpt: with a byte and a hash of 32 bytes it is encoded without an error and reads back,
-- whatever follows; and from an input of bytes, shorter than 2 ^ 63, only such a message is decoded,
-- and what was read is its encoding.
pub get_cfcheckpt_bsv_decode-IsCodec :
    IsCodec get_cfcheckpt_bsv_decode get_cfcheckpt_bsv_encode
      (λ msg. (msg.filter_type < 2 ^ 8) × Fits hash msg.stop_hash)
unfolding get_cfcheckpt_bsv_decode get_cfcheckpt_bsv_encode
get_cfcheckpt_bsv_decode-IsCodec = record {
  reads_back = λ msg p.
      RoundTrips-bind _ (RoundTrips-element uint8_kind msg.filter_type p.0)
        (RoundTrips-last _ (RoundTrips-element hash msg.stop_hash p.1) (λ s. refl));
  takes = Takes-bind (Takes-plain uint8_kind tt) λ x b0 i0 p.
      Takes-bind (Takes-plain hash tt)
        λ z b2 i2 r. Takes-pure ((p.0, r.0), rw (p.1, r.1, append-nil) refl);
}

-- MsgCFilter: with a byte, a hash of 32 bytes and at most 262144 bytes of data it is encoded without
-- an error and reads back, whatever follows; and from an input of bytes, shorter than 2 ^ 63, only
-- such a message is decoded, and what was read is its encoding.
pub cfilter_bsv_decode-IsCodec : IsCodec cfilter_bsv_decode cfilter_bsv_encode (λ msg.
    (msg.filter_type < 2 ^ 8)
    × Fits hash msg.block_hash
    × ((length msg.data_bytes ≤ max_cfilter_data_size) × All IsByte msg.data_bytes))
unfolding cfilter_bsv_decode cfilter_bsv_encode
cfilter_bsv_decode-IsCodec =
    let c = var_bytes-IsCodec max_cfilter_data_size (omega arith) in
    record {
      reads_back = λ msg p. RoundTrips-written _ _ (le→ltb max_cfilter_data_size _ p.2.0) (
          RoundTrips-bind _ (RoundTrips-element uint8_kind msg.filter_type p.0) (
            RoundTrips-bind _ (RoundTrips-element hash msg.block_hash p.1)
              (RoundTrips-last _ (c.reads_back msg.data_bytes p.2) (λ s. refl))));
      takes = Takes-bind (Takes-plain uint8_kind tt) λ x b0 i0 p.
          Takes-bind (Takes-plain hash tt) λ y b1 i1 q. Takes-bind c.takes λ z b2 i2 r. Takes-pure (
            (p.0, q.0, r.0),
            refuse_put-passes _ _ (le→ltb max_cfilter_data_size _ r.0.0)
                (rw (p.1, q.1, r.1, append-nil) refl),
          );
    }

-- MsgCFHeaders: with a byte, two hashes and at most 2000 filter hashes, of 32 bytes each, it is
-- encoded without an error and reads back, whatever follows; and from an input of bytes, shorter
-- than 2 ^ 63, only such a message is decoded, and what was read is its encoding.
pub cf_headers_bsv_decode-IsCodec : IsCodec cf_headers_bsv_decode cf_headers_bsv_encode (λ msg.
    (msg.filter_type < 2 ^ 8)
    × Fits hash msg.stop_hash
    × Fits hash msg.prev_filter_header
    × (length msg.filter_hashes ≤ max_cf_headers_per_msg)
    × All (Fits hash) msg.filter_hashes)
unfolding cf_headers_bsv_decode cf_headers_bsv_encode add_cf_hash
cf_headers_bsv_decode-IsCodec = record {
  reads_back = λ msg p. RoundTrips-bind _ (RoundTrips-element uint8_kind msg.filter_type p.0) (
      RoundTrips-bind _ (RoundTrips-element hash msg.stop_hash p.1) (
        RoundTrips-bind _ (RoundTrips-element hash msg.prev_filter_header p.2) (
          RoundTrips-last _
            (RoundTrips-written _ _ (le→ltb max_cf_headers_per_msg _ p.3) (
              RoundTrips-counted (Fits hash) (write_element hash) (read_element hash) _
                max_cf_headers_per_msg _ (or_keep-Appends _ max_cf_headers_per_msg)
                (RoundTrips-element hash) (omega arith) msg.filter_hashes p.4 p.3))
            (λ s. refl))));
  takes = Takes-bind (Takes-plain uint8_kind tt) λ x b0 i0 p.
      Takes-bind (Takes-plain hash tt) λ y b1 i1 q. Takes-bind (Takes-plain hash tt) λ z b2 i2 r.
        Takes-bind
          (Takes-counted (Fits hash) (write_element hash) (read_element hash) _
            max_cf_headers_per_msg _ (or_keep-Appends _ max_cf_headers_per_msg)
            (Takes-plain hash tt))
          λ l b3 i3 t.
            let listed =
              refuse_put-passes _ (message_error "MsgCFHeaders.BsvEncode")
                (le→ltb max_cf_headers_per_msg _ t.0) t.2 in
            Takes-pure ((p.0, q.0, r.0, t.0, t.1), rw (p.1, q.1, r.1, listed, append-nil) refl);
}

-- MsgCFCheckpt: with a byte, a hash and at most 100000 headers, of 32 bytes each, it is encoded
-- without an error and reads back, whatever follows; and from an input of bytes, shorter than
-- 2 ^ 63, only such a message is decoded, and what was read is its encoding.
pub cfcheckpt_bsv_decode-IsCodec : IsCodec cfcheckpt_bsv_decode cfcheckpt_bsv_encode (λ msg.
    (msg.filter_type < 2 ^ 8)
    × Fits hash msg.stop_hash
    × (length msg.filter_headers ≤ max_cf_headers_len)
    × All (Fits hash) msg.filter_headers)
unfolding cfcheckpt_bsv_decode cfcheckpt_bsv_encode write_counted
cfcheckpt_bsv_decode-IsCodec = record {
  reads_back = λ msg p. RoundTrips-bind _ (RoundTrips-element uint8_kind msg.filter_type p.0) (
      RoundTrips-bind _ (RoundTrips-element hash msg.stop_hash p.1) (
        RoundTrips-bind _ (RoundTrips-var_int (length msg.filter_headers) (omega (arith, p.2))) (
          RoundTrips-pass _ _ (le→ltb max_cf_headers_len _ p.2) (
            RoundTrips-last _
              (RoundTrips-each (Fits hash) (write_element hash) (read_element hash)
                (RoundTrips-element hash) msg.filter_headers p.3)
              (λ s. refl)))));
  takes = Takes-bind (Takes-plain uint8_kind tt) λ x b0 i0 p.
      Takes-bind (Takes-plain hash tt) λ y b1 i1 q. Takes-bind Takes-read_var_int λ n b2 i2 r.
        Takes-pass _ _ λ few.
          Takes-bind
            (Takes-times (Fits hash) (write_element hash) (read_element hash) (Takes-plain hash tt)
              n)
            λ l b3 i3 t. Takes-pure (
              (p.0, q.0, omega (arith, t.0, ltb→le max_cf_headers_len n few), t.1),
              rw (t.0, p.1, q.1, r.1, t.2, append-nil) refl,
            );
}
