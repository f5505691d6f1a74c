-- ===== src/Message/Valid.antt =====
-- message.go: the messages of each type that can be sent and received.
use go_wire.Prelude.{ltb, ◌≤◌, ◌^◌, ◌<◌, leb, ℕ, All, List, ◌+◌, ◌≡◌, length, false}
use go_wire.Block.{IsBlock}
use go_wire.CompactFilters.{max_cf_headers_len, max_cfilter_data_size, max_cf_headers_per_msg}
use go_wire.Element.{hash, Fits}
use go_wire.Empty.{bip0035_version, send_headers_version, protoconf_version}
use go_wire.ExtendedTx.Data.{IsExtendedTx}
use go_wire.ExtendedTx.Decode.{extended_scripts}
use go_wire.FilterMessages.{IsMerkleBlock, bip0037_version, IsFilterLoad, max_filter_add_data_size}
use go_wire.Headers.{IsHeaderList}
use go_wire.Inventory.{IsInvList}
use go_wire.Io.{IsByte, done}
use go_wire.Io.Reads.{RoundTrips}
use go_wire.Locator.{IsLocator}
use go_wire.Message.Coding.{Packages}
use go_wire.Message.Types.{
  msg_get_headers, msg_auth_resp, msg_ver_ack, msg_extended_tx, msg_get_blocks, msg_create_stream,
  msg_reject, msg_send_cmpct, msg_filter_load, msg_not_found, msg_filter_add, msg_merkle_block,
  msg_cf_headers, msg_cfilter, msg_mem_pool, Payload, msg_tx, msg_send_headers, msg_protoconf,
  msg_inv, msg_get_cfilters, msg_pong, msg_fee_filter, MessageType, msg_stream_ack, msg_version,
  msg_get_addr, msg_auth_ch, msg_get_data, msg_addr, msg_ext_msg, msg_get_cfheaders, msg_headers,
  msg_get_cfcheckpt, msg_block, msg_cfcheckpt, msg_filter_clear, msg_ping,
}
use go_wire.NetAddress.{IsAddr}
use go_wire.Ping.{bip0031_version, fee_filter_version, IsPing}
use go_wire.Protoconf.{IsProtoconf}
use go_wire.Reject.{reject_version, IsReject}
use go_wire.Streams.{IsCreateStream, IsStreamAck}
use go_wire.Tx.Data.{IsTx}
use go_wire.Tx.Scripts.{out_scripts, pk_scripts, in_scripts}
use go_wire.Tx.Scripts.Relocate.{joined}
use go_wire.Version.{IsVersion}

-- What the code relies on of the other packages: an IP of 16 bytes is its own 16-byte form, an
-- integer of variable length reads back from its bytes, a digest has 32 bytes, and the double hash
-- is the digest of the digest.
pub record ArePackages (lib : Packages) : Type 0 where
  pub to_16 : (i : List ℕ) → length i ≡ 16 → lib.to_16 i ≡ i
  pub vi_back : (v : ℕ) → v < 2 ^ 64 → RoundTrips (done (lib.vi_bytes v)) lib.vi_read v
  pub digest : (s : List ℕ) → (length (lib.double_hash_b s) ≡ 32) × All IsByte (lib.double_hash_b s)
  pub double_hash : (s : List ℕ) → lib.double_hash_b s ≡ lib.sha256 (lib.sha256 s)

-- The bounds under which a message of each type decodes from what is encoded. An authch, an
-- authresp and an extmsg have none, since their decoders do not read what their encoders write.
abbrev pub IsMessage : ℕ → ℕ → (t : MessageType) → Payload t → Type 0
IsMessage ebs pver msg_version msg = IsVersion ebs msg × (bip0037_version ≤ pver)
IsMessage ebs pver msg_ver_ack msg = Unit {0}
IsMessage ebs pver msg_get_addr msg = Unit {0}
IsMessage ebs pver msg_addr msg = IsAddr pver msg
IsMessage ebs pver msg_get_blocks msg =
    IsLocator msg.protocol_version msg.block_locator_hashes msg.hash_stop
IsMessage ebs pver msg_inv msg = IsInvList msg.inv_list
IsMessage ebs pver msg_get_data msg = IsInvList msg.inv_list
IsMessage ebs pver msg_not_found msg = IsInvList msg.inv_list
IsMessage ebs pver msg_block msg = (ebs < 2 ^ 64) × IsBlock ebs msg
IsMessage ebs pver msg_tx msg =
    IsTx ebs msg × (length (joined (in_scripts msg)) + length (joined (out_scripts msg)) < 2 ^ 64)
IsMessage ebs pver msg_extended_tx msg =
    IsExtendedTx ebs msg
    × (length (joined (extended_scripts msg.tx_in)) + length (joined (pk_scripts msg.tx_out))
        < 2 ^ 64)
IsMessage ebs pver msg_get_headers msg =
    IsLocator msg.protocol_version msg.block_locator_hashes msg.hash_stop
IsMessage ebs pver msg_headers msg = IsHeaderList msg.headers
IsMessage ebs pver msg_ping msg = IsPing pver msg
IsMessage ebs pver msg_pong msg = (leb pver bip0031_version ≡ false) × (msg.nonce < 2 ^ 64)
IsMessage ebs pver msg_mem_pool msg = bip0035_version ≤ pver
IsMessage ebs pver msg_filter_add msg =
    (ltb pver bip0037_version ≡ false)
    × ((length msg.data_bytes ≤ max_filter_add_data_size) × All IsByte msg.data_bytes)
IsMessage ebs pver msg_filter_clear msg = bip0037_version ≤ pver
IsMessage ebs pver msg_filter_load msg = (ltb pver bip0037_version ≡ false) × IsFilterLoad msg
IsMessage ebs pver msg_merkle_block msg =
    (ebs < 2 ^ 64) × (ltb pver bip0037_version ≡ false) × IsMerkleBlock ebs msg
IsMessage ebs pver msg_reject msg = (reject_version ≤ pver) × IsReject ebs msg
IsMessage ebs pver msg_send_headers msg = send_headers_version ≤ pver
IsMessage ebs pver msg_fee_filter msg =
    (ltb pver fee_filter_version ≡ false) × (msg.min_fee < 2 ^ 64)
IsMessage ebs pver msg_get_cfilters msg =
    (msg.filter_type < 2 ^ 8) × (msg.start_height < 2 ^ 32) × Fits hash msg.stop_hash
IsMessage ebs pver msg_get_cfheaders msg =
    (msg.filter_type < 2 ^ 8) × (msg.start_height < 2 ^ 32) × Fits hash msg.stop_hash
IsMessage ebs pver msg_get_cfcheckpt msg = (msg.filter_type < 2 ^ 8) × Fits hash msg.stop_hash
IsMessage ebs pver msg_cfilter msg =
    (msg.filter_type < 2 ^ 8)
    × Fits hash msg.block_hash
    × ((length msg.data_bytes ≤ max_cfilter_data_size) × All IsByte msg.data_bytes)
IsMessage ebs pver msg_cf_headers msg =
    (msg.filter_type < 2 ^ 8)
    × Fits hash msg.stop_hash
    × Fits hash msg.prev_filter_header
    × (length msg.filter_hashes ≤ max_cf_headers_per_msg)
    × All (Fits hash) msg.filter_hashes
IsMessage ebs pver msg_cfcheckpt msg =
    (msg.filter_type < 2 ^ 8)
    × Fits hash msg.stop_hash
    × (length msg.filter_headers ≤ max_cf_headers_len)
    × All (Fits hash) msg.filter_headers
IsMessage ebs pver msg_protoconf msg = (protoconf_version ≤ pver) × IsProtoconf ebs msg
IsMessage ebs pver msg_ext_msg msg = ⊥
IsMessage ebs pver msg_auth_ch msg = ⊥
IsMessage ebs pver msg_auth_resp msg = ⊥
IsMessage ebs pver msg_send_cmpct msg = msg.version < 2 ^ 64
IsMessage ebs pver msg_create_stream msg = IsCreateStream ebs msg
IsMessage ebs pver msg_stream_ack msg = IsStreamAck msg
