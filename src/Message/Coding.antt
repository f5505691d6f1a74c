-- ===== src/Message/Coding.antt =====
-- message.go: Bsvdecode and BsvEncode of the types that implement Message. What the messages take
-- from other packages is a parameter.
use go_wire.Prelude.{ℕ, List}
use go_wire.Auth.{
  auth_resp_bsv_encode, auth_ch_bsv_encode, auth_ch_bsv_decode, auth_resp_bsv_decode,
}
use go_wire.Block.{block_bsv_decode, block_bsv_encode}
use go_wire.CompactFilters.{
  get_cfheaders_bsv_encode, get_cfcheckpt_bsv_encode, cfilter_bsv_decode, cf_headers_bsv_decode,
  cfcheckpt_bsv_encode, get_cfilters_bsv_decode, cfcheckpt_bsv_decode, get_cfcheckpt_bsv_decode,
  cfilter_bsv_encode, cf_headers_bsv_encode, get_cfilters_bsv_encode, get_cfheaders_bsv_decode,
}
use go_wire.Empty.{
  get_addr_bsv_decode, send_headers_bsv_encode, mem_pool_bsv_encode, ext_msg_bsv_encode,
  ext_msg_bsv_decode, ver_ack_bsv_encode, mem_pool_bsv_decode, filter_clear_bsv_decode,
  filter_clear_bsv_encode, get_addr_bsv_encode, ver_ack_bsv_decode, send_headers_bsv_decode,
}
use go_wire.ExtendedTx.Decode.{extended_tx_bsv_decode}
use go_wire.ExtendedTx.Encode.{extended_tx_bsv_encode}
use go_wire.FilterMessages.{
  filter_load_bsv_decode, filter_add_bsv_encode, filter_add_bsv_decode, filter_load_bsv_encode,
  merkle_block_bsv_encode, merkle_block_bsv_decode,
}
use go_wire.Headers.{headers_bsv_decode, headers_bsv_encode}
use go_wire.Inventory.{
  get_data_bsv_decode, get_data_bsv_encode, inv_bsv_encode, not_found_bsv_encode, inv_bsv_decode,
  not_found_bsv_decode,
}
use go_wire.Io.{Put, Read}
use go_wire.Locator.{
  get_blocks_bsv_encode, get_headers_bsv_decode, get_blocks_bsv_decode, get_headers_bsv_encode,
}
use go_wire.Message.Types.{
  msg_filter_load, msg_get_addr, msg_addr, msg_headers, msg_filter_add, msg_ver_ack, msg_tx,
  msg_block, msg_ping, msg_extended_tx, MessageType, msg_not_found, msg_filter_clear, msg_get_data,
  msg_pong, msg_get_blocks, msg_get_headers, Payload, msg_inv, msg_mem_pool, msg_version,
  msg_reject, msg_create_stream, msg_send_headers, msg_get_cfcheckpt, msg_auth_ch, msg_send_cmpct,
  msg_fee_filter, msg_merkle_block, msg_cfilter, msg_cf_headers, msg_protoconf, msg_get_cfilters,
  msg_ext_msg, msg_cfcheckpt, msg_stream_ack, msg_auth_resp, msg_get_cfheaders,
}
use go_wire.NetAddress.{addr_bsv_decode, addr_bsv_encode}
use go_wire.Ping.{
  ping_bsv_encode, pong_bsv_encode, fee_filter_bsv_encode, fee_filter_bsv_decode, pong_bsv_decode,
  ping_bsv_decode,
}
use go_wire.Protoconf.{protoconf_bsv_decode, protoconf_bsv_encode}
use go_wire.Reject.{reject_bsv_encode, reject_bsv_decode}
use go_wire.Streams.{
  stream_ack_bsv_encode, send_cmpct_bsv_encode, stream_ack_bsv_decode, send_cmpct_bsv_decode,
  create_stream_bsv_encode, create_stream_bsv_decode,
}
use go_wire.Tx.Decode.{tx_bsv_decode}
use go_wire.Tx.Encode.{tx_bsv_encode}
use go_wire.Version.{version_bsv_decode, version_bsv_encode}

-- `to_16` is net.IP.To16, `vi_read` and `vi_bytes` are VarInt.ReadFrom and VarInt.Bytes of go-bt,
-- and `double_hash_b` is chainhash.DoubleHashB; `sha256` is the digest of crypto/sha256.
pub record Packages : Type 0 where
  pub to_16 : List ℕ → List ℕ
  pub vi_read : Read ℕ
  pub vi_bytes : ℕ → List ℕ
  pub double_hash_b : List ℕ → List ℕ
  pub sha256 : List ℕ → List ℕ

unfoldable pub bsv_decode : Packages → ℕ → ℕ → (t : MessageType) → Read (Payload t)
bsv_decode lib ebs pver msg_version = version_bsv_decode ebs pver
bsv_decode lib ebs pver msg_ver_ack = ver_ack_bsv_decode
bsv_decode lib ebs pver msg_get_addr = get_addr_bsv_decode
bsv_decode lib ebs pver msg_addr = addr_bsv_decode pver
bsv_decode lib ebs pver msg_get_blocks = get_blocks_bsv_decode
bsv_decode lib ebs pver msg_inv = inv_bsv_decode
bsv_decode lib ebs pver msg_get_data = get_data_bsv_decode
bsv_decode lib ebs pver msg_not_found = not_found_bsv_decode
bsv_decode lib ebs pver msg_block = block_bsv_decode ebs
bsv_decode lib ebs pver msg_tx = tx_bsv_decode ebs
bsv_decode lib ebs pver msg_extended_tx = extended_tx_bsv_decode ebs
bsv_decode lib ebs pver msg_get_headers = get_headers_bsv_decode
bsv_decode lib ebs pver msg_headers = headers_bsv_decode
bsv_decode lib ebs pver msg_ping = ping_bsv_decode pver
bsv_decode lib ebs pver msg_pong = pong_bsv_decode pver
bsv_decode lib ebs pver msg_mem_pool = mem_pool_bsv_decode pver
bsv_decode lib ebs pver msg_filter_add = filter_add_bsv_decode pver
bsv_decode lib ebs pver msg_filter_clear = filter_clear_bsv_decode pver
bsv_decode lib ebs pver msg_filter_load = filter_load_bsv_decode pver
bsv_decode lib ebs pver msg_merkle_block = merkle_block_bsv_decode ebs pver
bsv_decode lib ebs pver msg_reject = reject_bsv_decode ebs pver
bsv_decode lib ebs pver msg_send_headers = send_headers_bsv_decode pver
bsv_decode lib ebs pver msg_fee_filter = fee_filter_bsv_decode pver
bsv_decode lib ebs pver msg_get_cfilters = get_cfilters_bsv_decode
bsv_decode lib ebs pver msg_get_cfheaders = get_cfheaders_bsv_decode
bsv_decode lib ebs pver msg_get_cfcheckpt = get_cfcheckpt_bsv_decode
bsv_decode lib ebs pver msg_cfilter = cfilter_bsv_decode
bsv_decode lib ebs pver msg_cf_headers = cf_headers_bsv_decode
bsv_decode lib ebs pver msg_cfcheckpt = cfcheckpt_bsv_decode
bsv_decode lib ebs pver msg_protoconf = protoconf_bsv_decode lib.vi_read ebs pver
bsv_decode lib ebs pver msg_ext_msg = ext_msg_bsv_decode pver
bsv_decode lib ebs pver msg_auth_ch = auth_ch_bsv_decode
bsv_decode lib ebs pver msg_auth_resp = auth_resp_bsv_decode
bsv_decode lib ebs pver msg_send_cmpct = send_cmpct_bsv_decode
bsv_decode lib ebs pver msg_create_stream = create_stream_bsv_decode ebs
bsv_decode lib ebs pver msg_stream_ack = stream_ack_bsv_decode

unfoldable pub bsv_encode : Packages → ℕ → ℕ → (t : MessageType) → Payload t → Put
bsv_encode lib ebs pver msg_version msg = version_bsv_encode lib.to_16 pver msg
bsv_encode lib ebs pver msg_ver_ack _ = ver_ack_bsv_encode
bsv_encode lib ebs pver msg_get_addr _ = get_addr_bsv_encode
bsv_encode lib ebs pver msg_addr msg = addr_bsv_encode lib.to_16 pver msg
bsv_encode lib ebs pver msg_get_blocks msg = get_blocks_bsv_encode msg
bsv_encode lib ebs pver msg_inv msg = inv_bsv_encode msg
bsv_encode lib ebs pver msg_get_data msg = get_data_bsv_encode msg
bsv_encode lib ebs pver msg_not_found msg = not_found_bsv_encode msg
bsv_encode lib ebs pver msg_block msg = block_bsv_encode msg
bsv_encode lib ebs pver msg_tx msg = tx_bsv_encode msg
bsv_encode lib ebs pver msg_extended_tx msg = extended_tx_bsv_encode msg
bsv_encode lib ebs pver msg_get_headers msg = get_headers_bsv_encode msg
bsv_encode lib ebs pver msg_headers msg = headers_bsv_encode msg
bsv_encode lib ebs pver msg_ping msg = ping_bsv_encode pver msg
bsv_encode lib ebs pver msg_pong msg = pong_bsv_encode pver msg
bsv_encode lib ebs pver msg_mem_pool _ = mem_pool_bsv_encode pver
bsv_encode lib ebs pver msg_filter_add msg = filter_add_bsv_encode pver msg
bsv_encode lib ebs pver msg_filter_clear _ = filter_clear_bsv_encode pver
bsv_encode lib ebs pver msg_filter_load msg = filter_load_bsv_encode pver msg
bsv_encode lib ebs pver msg_merkle_block msg = merkle_block_bsv_encode ebs pver msg
bsv_encode lib ebs pver msg_reject msg = reject_bsv_encode pver msg
bsv_encode lib ebs pver msg_send_headers _ = send_headers_bsv_encode pver
bsv_encode lib ebs pver msg_fee_filter msg = fee_filter_bsv_encode pver msg
bsv_encode lib ebs pver msg_get_cfilters msg = get_cfilters_bsv_encode msg
bsv_encode lib ebs pver msg_get_cfheaders msg = get_cfheaders_bsv_encode msg
bsv_encode lib ebs pver msg_get_cfcheckpt msg = get_cfcheckpt_bsv_encode msg
bsv_encode lib ebs pver msg_cfilter msg = cfilter_bsv_encode msg
bsv_encode lib ebs pver msg_cf_headers msg = cf_headers_bsv_encode msg
bsv_encode lib ebs pver msg_cfcheckpt msg = cfcheckpt_bsv_encode msg
bsv_encode lib ebs pver msg_protoconf msg = protoconf_bsv_encode lib.vi_bytes pver msg
bsv_encode lib ebs pver msg_ext_msg msg = ext_msg_bsv_encode pver msg
bsv_encode lib ebs pver msg_auth_ch msg = auth_ch_bsv_encode msg
bsv_encode lib ebs pver msg_auth_resp msg = auth_resp_bsv_encode msg
bsv_encode lib ebs pver msg_send_cmpct msg = send_cmpct_bsv_encode msg
bsv_encode lib ebs pver msg_create_stream msg = create_stream_bsv_encode msg
bsv_encode lib ebs pver msg_stream_ack msg = stream_ack_bsv_encode msg
