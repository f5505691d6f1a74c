-- ===== src/Message/PartBounds.antt =====
-- What the parts of the messages leave in the buffer at most.
use go_wire.Prelude.{
  ℕ, List, ◌≡◌, ◌*◌, not, if◌then◌else◌, true, false, leb, ◌∷◌, Bool, length, inr, Bool-cases, refl,
  ◌<◌, inl, ◌+◌, ◌≤◌, [], ltb, ◌%◌, ◌^◌, arith, All,
}
use go_wire.Binary.{order_bytes, le, big, put_uint16}
use go_wire.Binary.Bytes.{length-order_bytes}
use go_wire.BlockHeader.{IsHeader, BlockHeader}
use go_wire.BlockHeader.Transfer.{Writes-block_header}
use go_wire.Counted.{write_counted}
use go_wire.Element.{
  hash, service_flag, ip, bool, uint8_kind, uint32_kind, write_element, Values, int32, Fits,
  uint64_kind,
}
use go_wire.Element.Size.{Writes-uint64}
use go_wire.FilterMessages.{bip0037_version}
use go_wire.Headers.{write_lone_header}
use go_wire.Inventory.{
  inv_vect_kinds, IsInvVect, InvVect, IsInvList, write_inv_vect, inv_max_payload_length,
}
use go_wire.Io.{◌▸◌}
use go_wire.Io.Writes.{sum_of}
use go_wire.Locator.{IsLocator}
use go_wire.Message.AtMost.{
  AtMost-var_bytes_9, AtMost-elements, AtMost-element, AtMost, AtMost-refuse_put, AtMost-▸,
  AtMost-all, AtMost-counted, AtMost-le, AtMost-nothing,
}
use go_wire.Message.Coding.{Packages}
use go_wire.Message.MaxPayload.{
  get_blocks_max_payload_length, get_cfilters_max_payload_length, pong_max_payload_length,
}
use go_wire.Message.Valid.{ArePackages}
use go_wire.NetAddress.{
  NetAddress, addr_bsv_encode, max_net_address_payload, write_net_address, sends_time, IsNetAddress,
  MsgAddr, addr_max_payload_length, write_time, IsAddr, max_addr_per_msg, multiple_address_version,
}
use go_wire.NetAddress.Transfer.{wire_ip-keeps}
use go_wire.Ping.{
  bip0031_version, pong_bsv_encode, ping_max_payload_length, MsgPing, MsgPong, ping_bsv_encode,
}
use go_wire.Streams.{max_association_id_len}
use go_wire.VarBytes.{write_var_bytes, write_var_string}
use go_wire.VarInt.{var_int_serialize_size}
use go_wire.VarInt.Transfer.{Writes-var_int}
use go_wire.Version.{
  version_max_payload_length, max_user_agent_len, version_bsv_encode, write_relay, MsgVersion,
  version_kinds, write_association, IsVersion,
}

pub AtMost-inv_list :
    (list : List InvVect)
    → IsInvList list
    → AtMost (write_counted write_inv_vect list) inv_max_payload_length
unfolding write_inv_vect sum_of
AtMost-inv_list list h =
    AtMost-counted IsInvVect write_inv_vect 36 50000
      (λ iv fits. AtMost-elements inv_vect_kinds (iv.type, (iv.hash, tt)) fits) list h.0 h.1

pub AtMost-hashes :
    (max : ℕ) (list : List (List ℕ))
    → length list ≤ max
    → All (Fits hash) list
    → AtMost (write_counted (write_element hash) list) (9 + max * 32)
AtMost-hashes max list few h =
    AtMost-counted (Fits hash) (write_element hash) 32 max (AtMost-element hash) list few h

pub AtMost-locator :
    (version : ℕ) (hashes : List (List ℕ)) (stop : List ℕ)
    → IsLocator version hashes stop
    → AtMost
        (write_element uint32_kind version
          ▸ write_counted (write_element hash) hashes
          ▸ write_element hash stop)
        get_blocks_max_payload_length
AtMost-locator version hashes stop h =
    AtMost-le
      (AtMost-▸ (AtMost-element uint32_kind version h.0)
        (AtMost-▸ (AtMost-hashes 500 hashes h.1 h.2) (AtMost-element hash stop h.3)))
      (omega arith)

abbrev time_width : Bool → ℕ
time_width sent = if sent then 4 else 0

AtMost-time : (sent : Bool) (t : ℕ) → AtMost (write_time sent t) (time_width sent)
unfolding write_time
AtMost-time true t = AtMost-element uint32_kind (t % 2 ^ 32) (omega arith)
AtMost-time false t = AtMost-nothing

AtMost-port : (port : ℕ) → AtMost (put_uint16 big port) 2
unfolding put_uint16
AtMost-port port = AtMost-all (record {
  bytes = order_bytes big 2 port;
  complete = refl;
  size = length-order_bytes big 2 port;
})

AtMost-net_address :
    (to16 : List ℕ → List ℕ)
    → ((i : List ℕ) → length i ≡ 16 → to16 i ≡ i)
    → (pver : ℕ) (ts : Bool) (na : NetAddress) → IsNetAddress (sends_time ts pver) na
    → AtMost (write_net_address to16 pver na ts) (time_width (sends_time ts pver) + 26)
unfolding write_net_address sum_of
AtMost-net_address to16 keeps pver ts na h =
    rw (wire_ip-keeps to16 keeps na.ip_bytes h.ip_bytes.0) (
      AtMost-▸ (AtMost-time (sends_time ts pver) na.timestamp) (
        AtMost-▸
          (AtMost-elements (service_flag ∷ ip ∷ []) (na.services, (na.ip_bytes, tt))
            (h.services, (h.ip_bytes, tt)))
          (AtMost-port na.port)))

pub AtMost-lone_header : (bh : BlockHeader) → IsHeader bh → AtMost (write_lone_header bh) 81
unfolding write_lone_header var_int_serialize_size
AtMost-lone_header bh h =
    AtMost-le (AtMost-▸ (AtMost-all (Writes-block_header bh h)) (AtMost-all (Writes-var_int 0)))
      (omega arith)

pub AtMost-range :
    (t n : ℕ) (h : List ℕ)
    → (t < 2 ^ 8) × (n < 2 ^ 32) × Fits hash h
    → AtMost
        (write_element uint8_kind t ▸ write_element uint32_kind n ▸ write_element hash h)
        get_cfilters_max_payload_length
AtMost-range t n h fits =
    AtMost-▸ (AtMost-element uint8_kind t fits.0)
      (AtMost-▸ (AtMost-element uint32_kind n fits.1) (AtMost-element hash h fits.2))

pub AtMost-ping :
    (pver : ℕ) (msg : MsgPing) → AtMost (ping_bsv_encode pver msg) (ping_max_payload_length pver)
unfolding ping_bsv_encode ping_max_payload_length write_element
AtMost-ping pver msg = elim (Bool-cases (ltb bip0031_version pver)) [
  | inl sent ↦ rw sent (AtMost-all (Writes-uint64 msg.nonce))
  | inr not_sent ↦ rw not_sent AtMost-nothing
]

pub AtMost-pong :
    (pver : ℕ) (msg : MsgPong)
    → leb pver bip0031_version ≡ false
    → AtMost (pong_bsv_encode pver msg) (pong_max_payload_length pver)
unfolding pong_bsv_encode pong_max_payload_length write_element
AtMost-pong pver msg h =
    let sent : ltb bip0031_version pver ≡ true = ground (arith, h) in
    rw sent (AtMost-refuse_put _ _ (AtMost-all (Writes-uint64 msg.nonce)))

time_width-max : (pver : ℕ) → time_width (sends_time true pver) + 26 ≤ max_net_address_payload pver
unfolding max_net_address_payload
time_width-max pver = ground arith

-- the addresses of an addr message that carries at most `max`
AtMost-addresses :
    (lib : Packages)
    → ArePackages lib
    → (pver max : ℕ) (list : List NetAddress) → length list ≤ max
    → All (IsNetAddress (sends_time true pver)) list
    → AtMost
        (write_counted (λ na. write_net_address lib.to_16 pver na true) list)
        (9 + max * max_net_address_payload pver)
AtMost-addresses lib laws pver max list few h =
    AtMost-counted (IsNetAddress (sends_time true pver))
      (λ na. write_net_address lib.to_16 pver na true) (max_net_address_payload pver) max
      (λ na fits.
        AtMost-le (AtMost-net_address lib.to_16 laws.to_16 pver true na fits) (time_width-max pver))
      list few h

pub AtMost-addr :
    (lib : Packages)
    → ArePackages lib
    → (pver : ℕ) (msg : MsgAddr) → IsAddr pver msg
    → AtMost (addr_bsv_encode lib.to_16 pver msg) (addr_max_payload_length pver)
unfolding addr_bsv_encode addr_max_payload_length
AtMost-addr lib laws pver msg h = elim (Bool-cases (ltb pver multiple_address_version)) [
  | inl single ↦
      let one : length msg.addr_list ≤ 1 = ground (arith, single, h.one) in
      rw single (
        AtMost-refuse_put _ _ (
          AtMost-refuse_put _ _
            (AtMost-le (AtMost-addresses lib laws pver 1 msg.addr_list one h.each) (omega arith))))
  | inr several ↦ rw several (
      AtMost-refuse_put _ _ (
        AtMost-refuse_put _ _
          (AtMost-addresses lib laws pver max_addr_per_msg msg.addr_list h.few h.each)))
]

AtMost-relay : (pver : ℕ) (disabled : Bool) → AtMost (write_relay pver disabled) 1
unfolding write_relay
AtMost-relay pver disabled = elim (Bool-cases (leb bip0037_version pver)) [
  | inl sent ↦ rw sent (AtMost-element bool (not disabled) tt)
  | inr not_sent ↦ rw not_sent AtMost-nothing
]

AtMost-association :
    (association : List ℕ)
    → length association ≤ max_association_id_len
    → AtMost (write_association association) (9 + max_association_id_len)
unfolding write_association
AtMost-association association le = elim (Bool-cases (ltb 0 (length association))) [
  | inl some_id ↦ rw some_id (AtMost-var_bytes_9 max_association_id_len association le)
  | inr no_id ↦ rw no_id AtMost-nothing
]

pub AtMost-version :
    (lib : Packages)
    → ArePackages lib
    → (ebs pver : ℕ) (msg : MsgVersion) → IsVersion ebs msg
    → AtMost (version_bsv_encode lib.to_16 pver msg) (version_max_payload_length pver)
unfolding version_bsv_encode version_max_payload_length max_net_address_payload write_var_string
    write_var_bytes sum_of
AtMost-version lib laws ebs pver msg h =
    let fields : Values version_kinds =
      (msg.protocol_version, (msg.services, (msg.timestamp, tt))) in
    let peer = AtMost-net_address lib.to_16 laws.to_16 pver false in
    AtMost-refuse_put _ _ (
      AtMost-le
        (AtMost-▸ (AtMost-elements version_kinds fields h.fields) (
          AtMost-▸ (peer msg.addr_you h.you) (
            AtMost-▸ (peer msg.addr_me h.me) (
              AtMost-▸ (AtMost-element uint64_kind msg.nonce h.nonce) (
                AtMost-▸ (AtMost-var_bytes_9 max_user_agent_len msg.user_agent h.short_agent) (
                  AtMost-▸ (AtMost-element int32 msg.last_block h.last_block) (
                    AtMost-▸ (AtMost-relay pver msg.disable_relay_tx)
                      (AtMost-association msg.association_id h.association))))))))
        (ground arith))
