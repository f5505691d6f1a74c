-- ===== src/Message/Bounds.antt =====
-- message.go: the encodings of the messages of each type against its MaxPayloadLength.
use go_wire.Prelude.{ℕ, ◌∷◌, [], arith}
use go_wire.BlockHeader.{IsHeader}
use go_wire.CompactFilters.{
  get_cfilters_bsv_encode, cfilter_bsv_encode, get_cfcheckpt_bsv_encode, get_cfheaders_bsv_encode,
  cf_headers_bsv_encode,
}
use go_wire.Element.{hash, bool, uint8_kind, int64, uint64_kind}
use go_wire.Empty.{
  get_addr_bsv_encode, send_headers_bsv_encode, mem_pool_bsv_encode, filter_clear_bsv_encode,
  ver_ack_bsv_encode,
}
use go_wire.FilterMessages.{filter_load_bsv_encode, filter_load_kinds, filter_add_bsv_encode}
use go_wire.Headers.{headers_bsv_encode, write_lone_header}
use go_wire.Inventory.{get_data_bsv_encode, not_found_bsv_encode, inv_bsv_encode}
use go_wire.Io.Writes.{sum_of}
use go_wire.Locator.{get_headers_bsv_encode, get_blocks_bsv_encode}
use go_wire.Message.{max_payload_length}
use go_wire.Message.AtMost.{
  AtMost-var_bytes_9, AtMost-elements, AtMost-element, AtMost, AtMost-refuse_put, AtMost-▸,
  AtMost-var_bytes, AtMost-counted, AtMost-le, AtMost-nothing,
}
use go_wire.Message.Coding.{Packages, bsv_encode}
use go_wire.Message.PartBounds.{
  AtMost-addr, AtMost-version, AtMost-range, AtMost-lone_header, AtMost-locator, AtMost-inv_list,
  AtMost-ping, AtMost-pong, AtMost-hashes,
}
use go_wire.Message.Types.{
  msg_stream_ack, msg_auth_resp, msg_get_headers, msg_get_cfheaders, msg_cf_headers, msg_ver_ack,
  msg_ping, msg_create_stream, msg_block, msg_get_addr, msg_get_data, msg_headers, msg_cfcheckpt,
  msg_fee_filter, msg_ext_msg, msg_protoconf, msg_extended_tx, msg_get_cfilters, msg_mem_pool,
  msg_auth_ch, msg_get_blocks, msg_inv, Payload, msg_tx, msg_get_cfcheckpt, msg_send_cmpct,
  msg_not_found, msg_filter_add, MessageType, msg_version, msg_merkle_block, msg_filter_load,
  msg_filter_clear, msg_cfilter, msg_reject, msg_pong, msg_addr, msg_send_headers,
}
use go_wire.Message.Valid.{IsMessage, ArePackages}
use go_wire.Ping.{fee_filter_bsv_encode}
use go_wire.Streams.{send_cmpct_bsv_encode, stream_ack_bsv_encode}

-- The types whose MaxPayloadLength bounds every message that decodes. That of the others is
-- a limit of the reader which their decoders do not imply, or none of their messages decodes.
abbrev pub IsLimited : MessageType → Type 0
IsLimited msg_block = ⊥
IsLimited msg_tx = ⊥
IsLimited msg_extended_tx = ⊥
IsLimited msg_merkle_block = ⊥
IsLimited msg_reject = ⊥
IsLimited msg_cfcheckpt = ⊥
IsLimited msg_protoconf = ⊥
IsLimited msg_ext_msg = ⊥
IsLimited msg_auth_ch = ⊥
IsLimited msg_auth_resp = ⊥
IsLimited msg_create_stream = ⊥
IsLimited _ = Unit {0}

module _ (lib : Packages) (laws : ArePackages lib) (ebs pver : ℕ) where
  -- A message within the bounds of its type leaves at most MaxPayloadLength bytes in the buffer, for
  -- every type but block, tx, extended tx, merkleblock, reject, cfcheckpt, protoconf, extmsg, authch,
  -- authresp and createstream.
  pub bsv_encode-AtMost :
      (t : MessageType)
      → IsLimited t
      → (msg : Payload t) → IsMessage ebs pver t msg
      → AtMost (bsv_encode lib ebs pver t msg) (max_payload_length ebs pver t)
  unfolding bsv_encode max_payload_length cf_headers_bsv_encode cfilter_bsv_encode
      fee_filter_bsv_encode filter_add_bsv_encode filter_clear_bsv_encode filter_load_bsv_encode
      get_addr_bsv_encode get_blocks_bsv_encode get_cfcheckpt_bsv_encode get_cfheaders_bsv_encode
      get_cfilters_bsv_encode get_data_bsv_encode get_headers_bsv_encode headers_bsv_encode
      inv_bsv_encode mem_pool_bsv_encode not_found_bsv_encode send_cmpct_bsv_encode
      send_headers_bsv_encode stream_ack_bsv_encode sum_of ver_ack_bsv_encode
  bsv_encode-AtMost msg_version i msg h = AtMost-version lib laws ebs pver msg h.0
  bsv_encode-AtMost msg_ver_ack i msg h = AtMost-nothing
  bsv_encode-AtMost msg_get_addr i msg h = AtMost-nothing
  bsv_encode-AtMost msg_addr i msg h = AtMost-addr lib laws pver msg h
  bsv_encode-AtMost msg_get_blocks i msg h =
      AtMost-refuse_put _ _
        (AtMost-locator msg.protocol_version msg.block_locator_hashes msg.hash_stop h)
  bsv_encode-AtMost msg_inv i msg h = AtMost-refuse_put _ _ (AtMost-inv_list msg.inv_list h)
  bsv_encode-AtMost msg_get_data i msg h = AtMost-refuse_put _ _ (AtMost-inv_list msg.inv_list h)
  bsv_encode-AtMost msg_not_found i msg h = AtMost-refuse_put _ _ (AtMost-inv_list msg.inv_list h)
  bsv_encode-AtMost msg_get_headers i msg h =
      AtMost-refuse_put _ _
        (AtMost-locator msg.protocol_version msg.block_locator_hashes msg.hash_stop h)
  bsv_encode-AtMost msg_headers i msg h =
      AtMost-refuse_put _ _
        (AtMost-counted IsHeader write_lone_header 81 2000 AtMost-lone_header msg.headers h.0 h.1)
  bsv_encode-AtMost msg_ping i msg h = AtMost-ping pver msg
  bsv_encode-AtMost msg_pong i msg h = AtMost-pong pver msg h.0
  bsv_encode-AtMost msg_mem_pool i msg h = AtMost-refuse_put _ _ AtMost-nothing
  bsv_encode-AtMost msg_filter_clear i msg h = AtMost-refuse_put _ _ AtMost-nothing
  bsv_encode-AtMost msg_send_headers i msg h = AtMost-refuse_put _ _ AtMost-nothing
  bsv_encode-AtMost msg_filter_add i msg h =
      AtMost-refuse_put _ _ (AtMost-refuse_put _ _ (AtMost-var_bytes 520 msg.data_bytes h.1.0))
  bsv_encode-AtMost msg_filter_load i msg h = AtMost-refuse_put _ _ (
      AtMost-refuse_put _ _ (
        AtMost-refuse_put _ _ (
          AtMost-le
            (AtMost-▸ (AtMost-var_bytes 36000 msg.filter h.1.0.0) (
              AtMost-elements filter_load_kinds (msg.hash_funcs, (msg.tweak, (msg.flags, tt)))
                h.1.1))
            (omega arith))))
  bsv_encode-AtMost msg_fee_filter i msg h =
      AtMost-refuse_put _ _ (AtMost-element int64 msg.min_fee h.1)
  bsv_encode-AtMost msg_get_cfilters i msg h =
      AtMost-range msg.filter_type msg.start_height msg.stop_hash h
  bsv_encode-AtMost msg_get_cfheaders i msg h =
      AtMost-range msg.filter_type msg.start_height msg.stop_hash h
  bsv_encode-AtMost msg_get_cfcheckpt i msg h =
      AtMost-▸ (AtMost-element uint8_kind msg.filter_type h.0)
        (AtMost-element hash msg.stop_hash h.1)
  bsv_encode-AtMost msg_cfilter i msg h = AtMost-refuse_put _ _ (
      AtMost-le
        (AtMost-▸ (AtMost-element uint8_kind msg.filter_type h.0) (
          AtMost-▸ (AtMost-element hash msg.block_hash h.1)
            (AtMost-var_bytes 262144 msg.data_bytes h.2.0)))
        (omega arith))
  bsv_encode-AtMost msg_cf_headers i msg h =
      AtMost-le
        (AtMost-▸ (AtMost-element uint8_kind msg.filter_type h.0) (
          AtMost-▸ (AtMost-element hash msg.stop_hash h.1) (
            AtMost-▸ (AtMost-element hash msg.prev_filter_header h.2)
              (AtMost-refuse_put _ _ (AtMost-hashes 2000 msg.filter_hashes h.3 h.4)))))
        (omega arith)
  bsv_encode-AtMost msg_send_cmpct i msg h =
      AtMost-elements (bool ∷ uint64_kind ∷ []) (msg.send_cmpct, (msg.version, tt)) (tt, (h, tt))
  bsv_encode-AtMost msg_stream_ack i msg h =
      AtMost-le
        (AtMost-▸ (AtMost-var_bytes_9 129 msg.association_id h.0.0)
          (AtMost-element uint8_kind msg.stream_type h.1))
        (omega arith)
  bsv_encode-AtMost msg_block i msg h = absurd i
  bsv_encode-AtMost msg_tx i msg h = absurd i
  bsv_encode-AtMost msg_extended_tx i msg h = absurd i
  bsv_encode-AtMost msg_merkle_block i msg h = absurd i
  bsv_encode-AtMost msg_reject i msg h = absurd i
  bsv_encode-AtMost msg_cfcheckpt i msg h = absurd i
  bsv_encode-AtMost msg_protoconf i msg h = absurd i
  bsv_encode-AtMost msg_ext_msg i msg h = absurd i
  bsv_encode-AtMost msg_auth_ch i msg h = absurd i
  bsv_encode-AtMost msg_auth_resp i msg h = absurd i
  bsv_encode-AtMost msg_create_stream i msg h = absurd i
