-- ===== src/Message/RoundTrip.antt =====
-- The messages whose decoders read what their encoders write.
use go_wire.Prelude.{Bool, ◌≡◌, false, [], le→ltb, ℕ}
use go_wire.Block.Transfer.{block_bsv_decode-block_bsv_encode}
use go_wire.CompactFilters.RoundTrip.{
  cf_headers_bsv_decode-cf_headers_bsv_encode, cfcheckpt_bsv_decode-cfcheckpt_bsv_encode,
  cfilter_bsv_decode-cfilter_bsv_encode,
}
use go_wire.CompactFilters.Transfer.{
  get_cfilters_bsv_decode-IsCodec, get_cfheaders_bsv_decode-IsCodec,
  get_cfcheckpt_bsv_decode-IsCodec,
}
use go_wire.Empty.{
  ver_ack_bsv_decode, send_headers_bsv_decode, bip0035_version, mem_pool_bsv_decode,
  filter_clear_bsv_encode, send_headers_bsv_encode, get_addr_bsv_encode, ver_ack_bsv_encode,
  mem_pool_bsv_encode, filter_clear_bsv_decode, send_headers_version, get_addr_bsv_decode,
}
use go_wire.ExtendedTx.Transfer.{extended_tx_bsv_decode-extended_tx_bsv_encode}
use go_wire.FilterMessages.{bip0037_version}
use go_wire.FilterMessages.RoundTrip.{
  filter_load_bsv_decode-filter_load_bsv_encode, merkle_block_bsv_decode-merkle_block_bsv_encode,
}
use go_wire.FilterMessages.Transfer.{filter_add_bsv_decode-IsCodec}
use go_wire.Headers.RoundTrip.{headers_bsv_decode-headers_bsv_encode}
use go_wire.Inventory.RoundTrip.{
  inv_bsv_decode-inv_bsv_encode, not_found_bsv_decode-not_found_bsv_encode,
  get_data_bsv_decode-get_data_bsv_encode,
}
use go_wire.Io.{refuse_if, Error, refuse_put, done}
use go_wire.Io.Reads.{RoundTrips-pure, RoundTrips}
use go_wire.Locator.RoundTrip.{
  get_headers_bsv_decode-get_headers_bsv_encode, get_blocks_bsv_decode-get_blocks_bsv_encode,
}
use go_wire.Message.Coding.{Packages, bsv_encode, bsv_decode}
use go_wire.Message.Types.{
  msg_get_headers, msg_headers, msg_get_cfheaders, msg_auth_resp, msg_extended_tx, msg_get_blocks,
  msg_cfcheckpt, msg_stream_ack, msg_auth_ch, msg_fee_filter, msg_ver_ack, msg_version,
  msg_create_stream, msg_cf_headers, msg_mem_pool, msg_ping, msg_not_found, msg_ext_msg,
  msg_filter_clear, msg_inv, msg_protoconf, msg_get_addr, msg_addr, msg_get_data, msg_send_headers,
  msg_tx, msg_get_cfilters, msg_get_cfcheckpt, msg_send_cmpct, msg_pong, msg_merkle_block,
  msg_filter_add, msg_block, msg_cfilter, msg_filter_load, msg_reject, MessageType, Payload,
}
use go_wire.Message.Valid.{ArePackages, IsMessage}
use go_wire.NetAddress.RoundTrip.{addr_bsv_decode-addr_bsv_encode}
use go_wire.Ping.RoundTrip.{
  fee_filter_bsv_decode-fee_filter_bsv_encode, pong_bsv_decode-pong_bsv_encode,
  ping_bsv_decode-ping_bsv_encode,
}
use go_wire.Protoconf.RoundTrip.{protoconf_bsv_decode-protoconf_bsv_encode}
use go_wire.Reject.RoundTrip.{reject_bsv_decode-IsCodec}
use go_wire.Streams.RoundTrip.{
  send_cmpct_bsv_decode-send_cmpct_bsv_encode, stream_ack_bsv_decode-stream_ack_bsv_encode,
  create_stream_bsv_decode-create_stream_bsv_encode,
}
use go_wire.Tx.Transfer.{tx_bsv_decode-tx_bsv_encode}
use go_wire.Version.RoundTrip.{version_bsv_decode-version_bsv_encode}
use go_wire.Version.ToEnd.{RoundTrips-Whole, Whole}

RoundTrips-nothing :
    (b : Bool) (e e' : Error)
    → b ≡ false
    → RoundTrips (refuse_put b e (done [])) (refuse_if b e') tt
unfolding refuse_put refuse_if
RoundTrips-nothing b e e' h = rw h (RoundTrips-pure tt)

-- Where the other packages do what the code relies on: a message within the bounds of its type, of any
-- type but extmsg, authch and authresp, is encoded without an error, and its encoding, with nothing
-- behind it, decodes to it. No message of the three other types is within bounds.
pub bsv_decode-bsv_encode :
    (lib : Packages)
    → ArePackages lib
    → (ebs pver : ℕ) (t : MessageType) (msg : Payload t) → IsMessage ebs pver t msg
    → Whole (bsv_encode lib ebs pver t msg) (bsv_decode lib ebs pver t) msg
unfolding bsv_decode bsv_encode ver_ack_bsv_decode ver_ack_bsv_encode get_addr_bsv_decode
    get_addr_bsv_encode mem_pool_bsv_decode mem_pool_bsv_encode filter_clear_bsv_decode
    filter_clear_bsv_encode send_headers_bsv_decode send_headers_bsv_encode
bsv_decode-bsv_encode lib laws ebs pver msg_version msg h =
    version_bsv_decode-version_bsv_encode lib.to_16 laws.to_16 ebs pver msg h.0 h.1
bsv_decode-bsv_encode lib laws ebs pver msg_ver_ack msg h = RoundTrips-Whole (RoundTrips-pure tt)
bsv_decode-bsv_encode lib laws ebs pver msg_get_addr msg h = RoundTrips-Whole (RoundTrips-pure tt)
bsv_decode-bsv_encode lib laws ebs pver msg_addr msg h =
    RoundTrips-Whole (addr_bsv_decode-addr_bsv_encode lib.to_16 laws.to_16 pver msg h)
bsv_decode-bsv_encode lib laws ebs pver msg_get_blocks msg h =
    RoundTrips-Whole (get_blocks_bsv_decode-get_blocks_bsv_encode msg h)
bsv_decode-bsv_encode lib laws ebs pver msg_inv msg h =
    RoundTrips-Whole (inv_bsv_decode-inv_bsv_encode msg h)
bsv_decode-bsv_encode lib laws ebs pver msg_get_data msg h =
    RoundTrips-Whole (get_data_bsv_decode-get_data_bsv_encode msg h)
bsv_decode-bsv_encode lib laws ebs pver msg_not_found msg h =
    RoundTrips-Whole (not_found_bsv_decode-not_found_bsv_encode msg h)
bsv_decode-bsv_encode lib laws ebs pver msg_block msg h =
    RoundTrips-Whole (block_bsv_decode-block_bsv_encode ebs msg h.0 h.1)
bsv_decode-bsv_encode lib laws ebs pver msg_tx msg h =
    RoundTrips-Whole (tx_bsv_decode-tx_bsv_encode ebs msg h.0 h.1)
bsv_decode-bsv_encode lib laws ebs pver msg_extended_tx msg h =
    RoundTrips-Whole (extended_tx_bsv_decode-extended_tx_bsv_encode ebs msg h.0 h.1)
bsv_decode-bsv_encode lib laws ebs pver msg_get_headers msg h =
    RoundTrips-Whole (get_headers_bsv_decode-get_headers_bsv_encode msg h)
bsv_decode-bsv_encode lib laws ebs pver msg_headers msg h =
    RoundTrips-Whole (headers_bsv_decode-headers_bsv_encode msg h)
bsv_decode-bsv_encode lib laws ebs pver msg_ping msg h =
    RoundTrips-Whole (ping_bsv_decode-ping_bsv_encode pver msg h)
bsv_decode-bsv_encode lib laws ebs pver msg_pong msg h =
    RoundTrips-Whole (pong_bsv_decode-pong_bsv_encode pver msg h)
bsv_decode-bsv_encode lib laws ebs pver msg_mem_pool msg h =
    RoundTrips-Whole (RoundTrips-nothing _ _ _ (le→ltb pver bip0035_version h))
bsv_decode-bsv_encode lib laws ebs pver msg_filter_add msg h =
    RoundTrips-Whole ((filter_add_bsv_decode-IsCodec pver).reads_back msg h)
bsv_decode-bsv_encode lib laws ebs pver msg_filter_clear msg h =
    RoundTrips-Whole (RoundTrips-nothing _ _ _ (le→ltb pver bip0037_version h))
bsv_decode-bsv_encode lib laws ebs pver msg_filter_load msg h =
    RoundTrips-Whole (filter_load_bsv_decode-filter_load_bsv_encode pver msg h)
bsv_decode-bsv_encode lib laws ebs pver msg_merkle_block msg h =
    RoundTrips-Whole (merkle_block_bsv_decode-merkle_block_bsv_encode ebs pver msg h.0 (h.1, h.2))
bsv_decode-bsv_encode lib laws ebs pver msg_reject msg h =
    RoundTrips-Whole ((reject_bsv_decode-IsCodec ebs pver h.0).reads_back msg h.1)
bsv_decode-bsv_encode lib laws ebs pver msg_send_headers msg h =
    RoundTrips-Whole (RoundTrips-nothing _ _ _ (le→ltb pver send_headers_version h))
bsv_decode-bsv_encode lib laws ebs pver msg_fee_filter msg h =
    RoundTrips-Whole (fee_filter_bsv_decode-fee_filter_bsv_encode pver msg h)
bsv_decode-bsv_encode lib laws ebs pver msg_get_cfilters msg h =
    RoundTrips-Whole (get_cfilters_bsv_decode-IsCodec.reads_back msg h)
bsv_decode-bsv_encode lib laws ebs pver msg_get_cfheaders msg h =
    RoundTrips-Whole (get_cfheaders_bsv_decode-IsCodec.reads_back msg h)
bsv_decode-bsv_encode lib laws ebs pver msg_get_cfcheckpt msg h =
    RoundTrips-Whole (get_cfcheckpt_bsv_decode-IsCodec.reads_back msg h)
bsv_decode-bsv_encode lib laws ebs pver msg_cfilter msg h =
    RoundTrips-Whole (cfilter_bsv_decode-cfilter_bsv_encode msg h)
bsv_decode-bsv_encode lib laws ebs pver msg_cf_headers msg h =
    RoundTrips-Whole (cf_headers_bsv_decode-cf_headers_bsv_encode msg h)
bsv_decode-bsv_encode lib laws ebs pver msg_cfcheckpt msg h =
    RoundTrips-Whole (cfcheckpt_bsv_decode-cfcheckpt_bsv_encode msg h)
bsv_decode-bsv_encode lib laws ebs pver msg_protoconf msg h = RoundTrips-Whole (
    protoconf_bsv_decode-protoconf_bsv_encode lib.vi_read lib.vi_bytes laws.vi_back ebs pver msg h.0
      h.1)
bsv_decode-bsv_encode lib laws ebs pver msg_ext_msg msg h = absurd h
bsv_decode-bsv_encode lib laws ebs pver msg_auth_ch msg h = absurd h
bsv_decode-bsv_encode lib laws ebs pver msg_auth_resp msg h = absurd h
bsv_decode-bsv_encode lib laws ebs pver msg_send_cmpct msg h =
    RoundTrips-Whole (send_cmpct_bsv_decode-send_cmpct_bsv_encode msg h)
bsv_decode-bsv_encode lib laws ebs pver msg_create_stream msg h =
    RoundTrips-Whole (create_stream_bsv_decode-create_stream_bsv_encode ebs msg h)
bsv_decode-bsv_encode lib laws ebs pver msg_stream_ack msg h =
    RoundTrips-Whole (stream_ack_bsv_decode-stream_ack_bsv_encode msg h)
