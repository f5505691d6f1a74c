-- ===== src/Locator/Transfer.antt =====
-- Requests with block locator hashes on the wire.
use go_wire.Prelude.{le→ltb, arith, append-nil, refl}
use go_wire.Counted.Transfer.{RoundTrips-counted, Takes-counted, or_keep-Appends, or_fail-Appends}
use go_wire.Element.{hash, write_element, uint32_kind, Fits, read_element}
use go_wire.Element.Transfer.{RoundTrips-element, Takes-plain}
use go_wire.Io.Codec.{refuse_put-passes, IsCodec, RoundTrips-written}
use go_wire.Io.Reads.{RoundTrips-last, RoundTrips-bind}
use go_wire.Io.Takes.{Takes-pure, Takes-bind}
use go_wire.Locator.{
  get_blocks_add_hash, get_blocks_bsv_decode, get_headers_add_hash, get_headers_bsv_decode,
  get_blocks_bsv_encode, max_block_locators_per_msg, IsLocator, get_headers_bsv_encode,
}

-- MsgGetBlocks: with a 32-bit version, at most 500 locator hashes of 32 bytes, and a stop hash
-- of 32 bytes, it is encoded without an error and reads back, whatever follows; and from an input of
-- bytes, shorter than 2 ^ 63, only such a message is decoded, and what was read is its encoding.
pub get_blocks_bsv_decode-IsCodec :
    IsCodec get_blocks_bsv_decode get_blocks_bsv_encode
      (λ msg. IsLocator msg.protocol_version msg.block_locator_hashes msg.hash_stop)
unfolding get_blocks_bsv_decode get_blocks_bsv_encode get_blocks_add_hash
get_blocks_bsv_decode-IsCodec = record {
  reads_back = λ msg h. RoundTrips-written _ _ (le→ltb max_block_locators_per_msg _ h.1) (
      RoundTrips-bind _ (RoundTrips-element uint32_kind msg.protocol_version h.0) (
        RoundTrips-bind _
          (RoundTrips-counted (Fits hash) (write_element hash) (read_element hash) _
            max_block_locators_per_msg _ (or_keep-Appends _ max_block_locators_per_msg)
            (RoundTrips-element hash) (omega arith) msg.block_locator_hashes h.2 h.1)
          (RoundTrips-last _ (RoundTrips-element hash msg.hash_stop h.3) (λ s. refl))));
  takes = Takes-bind (Takes-plain uint32_kind tt) λ version b0 i0 v.
      Takes-bind
        (Takes-counted (Fits hash) (write_element hash) (read_element hash) _
          max_block_locators_per_msg _ (or_keep-Appends _ max_block_locators_per_msg)
          (Takes-plain hash tt))
        λ hashes b1 i1 l. Takes-bind (Takes-plain hash tt) λ stop b2 i2 s. Takes-pure (
          (v.0, l.0, l.1, s.0),
          refuse_put-passes _ _ (le→ltb max_block_locators_per_msg _ l.0)
              (rw (v.1, l.2, s.1, append-nil) refl),
        );
}

-- MsgGetHeaders: with a 32-bit version, at most 500 locator hashes of 32 bytes, and a stop hash
-- of 32 bytes, it is encoded without an error and reads back, whatever follows; and from an input of
-- bytes, shorter than 2 ^ 63, only such a message is decoded, and what was read is its encoding.
pub get_headers_bsv_decode-IsCodec :
    IsCodec get_headers_bsv_decode get_headers_bsv_encode
      (λ msg. IsLocator msg.protocol_version msg.block_locator_hashes msg.hash_stop)
unfolding get_headers_bsv_decode get_headers_bsv_encode get_headers_add_hash
get_headers_bsv_decode-IsCodec = record {
  reads_back = λ msg h. RoundTrips-written _ _ (le→ltb max_block_locators_per_msg _ h.1) (
      RoundTrips-bind _ (RoundTrips-element uint32_kind msg.protocol_version h.0) (
        RoundTrips-bind _
          (RoundTrips-counted (Fits hash) (write_element hash) (read_element hash) _
            max_block_locators_per_msg _ (or_fail-Appends _ max_block_locators_per_msg)
            (RoundTrips-element hash) (omega arith) msg.block_locator_hashes h.2 h.1)
          (RoundTrips-last _ (RoundTrips-element hash msg.hash_stop h.3) (λ s. refl))));
  takes = Takes-bind (Takes-plain uint32_kind tt) λ version b0 i0 v.
      Takes-bind
        (Takes-counted (Fits hash) (write_element hash) (read_element hash) _
          max_block_locators_per_msg _ (or_fail-Appends _ max_block_locators_per_msg)
          (Takes-plain hash tt))
        λ hashes b1 i1 l. Takes-bind (Takes-plain hash tt) λ stop b2 i2 s. Takes-pure (
          (v.0, l.0, l.1, s.0),
          refuse_put-passes _ _ (le→ltb max_block_locators_per_msg _ l.0)
              (rw (v.1, l.2, s.1, append-nil) refl),
        );
}
