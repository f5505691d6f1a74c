-- ===== src/CompactFilters/RoundTrip.antt =====
-- What the messages of committed filters read and write.
use go_wire.Prelude.{◌≤◌, length, ◌^◌, All, ◌<◌}
use go_wire.CompactFilters.{
  MsgCFilter, max_cf_headers_per_msg, cf_headers_bsv_decode, MsgCfHeaders, max_cf_headers_len,
  max_cfilter_data_size, cf_headers_bsv_encode, cfcheckpt_bsv_decode, cfcheckpt_bsv_encode,
  cfilter_bsv_decode, cfilter_bsv_encode, MsgCfCheckpt,
}
use go_wire.CompactFilters.Transfer.{
  cfcheckpt_bsv_decode-IsCodec, cf_headers_bsv_decode-IsCodec, cfilter_bsv_decode-IsCodec,
}
use go_wire.Element.{hash, Fits}
use go_wire.Io.{IsByte}
use go_wire.Io.Reads.{RoundTrips}

-- A cfilter message with a type of 8 bits, a hash of 32 bytes and at most 262144 bytes of data
-- is encoded without an error, and its encoding, followed by anything, decodes to it and leaves
-- what follows.
pub cfilter_bsv_decode-cfilter_bsv_encode :
    (msg : MsgCFilter)
    → (msg.filter_type < 2 ^ 8)
      × Fits hash msg.block_hash
      × ((length msg.data_bytes ≤ max_cfilter_data_size) × All IsByte msg.data_bytes)
    → RoundTrips (cfilter_bsv_encode msg) cfilter_bsv_decode msg
cfilter_bsv_decode-cfilter_bsv_encode msg h = cfilter_bsv_decode-IsCodec.reads_back msg h

-- A cfheaders message with a type of 8 bits, two hashes and at most 2000 filter hashes, of 32
-- bytes each, is encoded without an error, and its encoding, followed by anything, decodes to it
-- and leaves what follows.
pub cf_headers_bsv_decode-cf_headers_bsv_encode :
    (msg : MsgCfHeaders)
    → (msg.filter_type < 2 ^ 8)
      × Fits hash msg.stop_hash
      × Fits hash msg.prev_filter_header
      × (length msg.filter_hashes ≤ max_cf_headers_per_msg)
      × All (Fits hash) msg.filter_hashes
    → RoundTrips (cf_headers_bsv_encode msg) cf_headers_bsv_decode msg
cf_headers_bsv_decode-cf_headers_bsv_encode msg h = cf_headers_bsv_decode-IsCodec.reads_back msg h

-- A cfcheckpt message with a type of 8 bits, a hash and at most 100000 headers, of 32 bytes
-- each, is encoded without an error, and its encoding, followed by anything, decodes to it and
-- leaves what follows.
pub cfcheckpt_bsv_decode-cfcheckpt_bsv_encode :
    (msg : MsgCfCheckpt)
    → (msg.filter_type < 2 ^ 8)
      × Fits hash msg.stop_hash
      × (length msg.filter_headers ≤ max_cf_headers_len)
      × All (Fits hash) msg.filter_headers
    → RoundTrips (cfcheckpt_bsv_encode msg) cfcheckpt_bsv_decode msg
cfcheckpt_bsv_decode-cfcheckpt_bsv_encode msg h = cfcheckpt_bsv_decode-IsCodec.reads_back msg h
