-- ===== src/Message/Unread.antt =====
-- msg_ext_msg.go, msg_auth_ch.go and msg_auth_resp.go: the messages whose decoders do not read what
-- their encoders write.
use go_wire.Prelude.{
  ℕ, List, ◌∙◌, ◌+◌, sym, length, [], ◌<◌, arith, ◌≡◌, ap, length-append, inr, Bool-cases, inl, ltb,
  ◌++◌,
}
use go_wire.Auth.{
  auth_ch_max_payload_length, auth_ch_bsv_encode, auth_ch_bsv_decode, MsgAuthch,
  auth_resp_max_payload_length, auth_resp_bsv_decode, auth_resp_bsv_encode, MsgAuthresp,
}
use go_wire.Binary.{little, put_uint32, put_uint64}
use go_wire.Element.{write_elements, write_element, read_element}
use go_wire.Element.Size.{Writes-uint32, Writes-uint64}
use go_wire.Element.Transfer.{Takes-uint32, Takes-uint64}
use go_wire.Empty.{ext_msg_bsv_decode, MsgExtMsg, ext_msg_bsv_encode, protoconf_version}
use go_wire.Io.{done, refuse_if, written, IsInput, Read, refuse_put, Put}
use go_wire.Io.Takes.{Takes-pure, Takes-bind, Takes, Takes-weaken}
use go_wire.Io.Writes.{Writes-▸, Writes-done, Writes, done-injective}
use go_wire.Message.Coding.{bsv_decode, bsv_encode, Packages}
use go_wire.Message.Types.{
  msg_auth_ch, msg_auth_resp, msg_ext_msg, MessageType, msg_mem_pool, msg_get_cfcheckpt,
  msg_get_addr, msg_get_cfheaders, msg_stream_ack, msg_get_blocks, msg_filter_add, msg_pong,
  Payload, msg_filter_load, msg_protoconf, msg_tx, msg_filter_clear, msg_version, msg_reject,
  msg_ping, msg_addr, msg_extended_tx, msg_inv, msg_headers, msg_merkle_block, msg_cfcheckpt,
  msg_get_cfilters, msg_not_found, msg_block, msg_send_headers, msg_cf_headers, msg_create_stream,
  msg_get_headers, msg_fee_filter, msg_get_data, msg_cfilter, msg_send_cmpct, msg_ver_ack,
}
use go_wire.Protoconf.{split}
use go_wire.Tx.Size.{Writes-size}
use go_wire.VarBytes.{read_var_bytes}
use go_wire.VarBytes.Transfer.{Writes-var_bytes, Takes-read_var_bytes}
use go_wire.VarInt.{var_int_serialize_size}
use go_wire.Version.ToEnd.{Whole}

-- The types of these messages.
abbrev pub IsUnread : MessageType → Type 0
IsUnread msg_ext_msg = Unit {0}
IsUnread msg_auth_ch = Unit {0}
IsUnread msg_auth_resp = Unit {0}
IsUnread _ = ⊥

length_complete : {p : Put} {n : ℕ} (bs : List ℕ) → Writes p n → p ≡ done bs → length bs ≡ n
length_complete bs h e = ap length (done-injective (sym e ∙ h.complete)) ∙ h.size

-- A reader that takes `taken a` bytes reads nothing back that is written in another number of bytes.
Takes-not_Whole {ℓ} :
    {A : Type ℓ} {p : Put} {m : Read A} {n : ℕ} (taken : A → ℕ) (a : A)
    → Takes m (λ b bs. length bs ≡ taken b)
    → Writes p n
    → ¬ (n ≡ taken a)
    → IsInput (written p)
    → ¬ Whole p m a
unfolding written
Takes-not_Whole {p = p} taken a t w other i h =
    let input : IsInput h.bytes = rw h.written at i in
    let (bs, split, size) = t.at h.bytes a [] input h.reads in
    other (
      omega
        (arith, length_complete h.bytes w h.written, ap length split, length-append bs [], size))

-- an array behind its length, of at most `max` bytes, where lengths to `max` take one byte
Takes-short_bytes :
    (max : ℕ) → max < 0xfd → Takes (read_var_bytes max) (λ v bs. length bs ≡ 1 + length v)
unfolding var_int_serialize_size
Takes-short_bytes max small = Takes-weaken (Takes-read_var_bytes max) λ v bs i q.
    let one : var_int_serialize_size (length v) ≡ 1 = ground (arith, q.0, small) in
    length_complete bs (Writes-var_bytes v) q.3 ∙ ap (λ (k : ℕ). k + length v) one

length-uint32 : (bs : List ℕ) (v : ℕ) → put_uint32 little v ≡ done bs → length bs ≡ 4
length-uint32 bs v e = length_complete bs (Writes-uint32 v) e

length-uint64 : (bs : List ℕ) (v : ℕ) → put_uint64 little v ≡ done bs → length bs ≡ 8
length-uint64 bs v e = length_complete bs (Writes-uint64 v) e

ext_msg-not_Whole :
    (pver : ℕ) (msg : MsgExtMsg)
    → IsInput (written (ext_msg_bsv_encode pver msg))
    → ¬ Whole (ext_msg_bsv_encode pver msg) (ext_msg_bsv_decode pver) msg
unfolding ext_msg_bsv_encode ext_msg_bsv_decode refuse_put refuse_if write_elements write_element
ext_msg-not_Whole pver msg i = elim (Bool-cases (ltb pver protoconf_version)) [
  | inl old ↦ λ h. let e = rw old at h.written in cc
  | inr new ↦
      let wrote =
        Writes-▸ (Writes-uint64 msg.number_of_fields)
          (Writes-▸ (Writes-uint64 msg.max_recv_payload_length) (Writes-done [])) in
      λ h.
        let bs = h.bytes in
        let reads = rw new at h.reads in
        let wr = rw new at h.written in
        let at_end : bs ≡ [] = cc in omega (arith, ap length at_end, length_complete bs wrote wr)
]

Takes-auth_ch : Takes auth_ch_bsv_decode (λ m bs. length bs ≡ 5 + length m.challenge)
unfolding auth_ch_bsv_decode read_element
Takes-auth_ch = Takes-bind Takes-uint32 λ v bs i q.
    Takes-bind (Takes-short_bytes auth_ch_max_payload_length (omega arith)) λ c cs j r.
      Takes-pure
        (omega (arith, length-uint32 bs v q.1, r, length-append bs (cs ++ []), length-append cs []))

Writes-auth_ch : (msg : MsgAuthch) → Writes (auth_ch_bsv_encode msg) (8 + length msg.challenge)
unfolding auth_ch_bsv_encode write_elements write_element
Writes-auth_ch msg =
    Writes-▸
      (Writes-▸ (Writes-uint32 msg.version)
        (Writes-▸ (Writes-uint32 msg.length_field) (Writes-done [])))
      (Writes-done msg.challenge)

Takes-auth_resp :
    Takes auth_resp_bsv_decode (λ m bs. length bs ≡ 10 + length m.public_key + length m.signature)
unfolding auth_resp_bsv_decode read_element
Takes-auth_resp =
    Takes-bind (Takes-short_bytes auth_resp_max_payload_length (omega arith)) λ k bs i q.
      Takes-bind Takes-uint64 λ n cs j r.
        Takes-bind (Takes-short_bytes auth_resp_max_payload_length (omega arith)) λ s ds l t.
          Takes-pure (
            omega (
              arith,
              q,
              length-uint64 cs n r.1,
              t,
              length-append bs (cs ++ (ds ++ [])),
              length-append cs (ds ++ []),
              length-append ds [],
            ))

Writes-auth_resp :
    (msg : MsgAuthresp)
    → Writes (auth_resp_bsv_encode msg) (16 + length msg.public_key + length msg.signature)
unfolding auth_resp_bsv_encode write_elements write_element
Writes-auth_resp msg =
    Writes-size
      (Writes-▸ (Writes-uint32 msg.public_key_length) (
        Writes-▸ (Writes-done msg.public_key) (
          Writes-▸
            (Writes-▸ (Writes-uint64 msg.client_nonce)
              (Writes-▸ (Writes-uint32 msg.signature_length) (Writes-done [])))
            (Writes-done msg.signature))))
      (omega arith)

-- No message of the types extmsg, authch and authresp, whose encoding is of bytes and shorter than
-- 2 ^ 63, is read back: either it is not encoded without an error, or its encoding, with nothing behind it, does
-- not decode to it without an error and to its end.
pub bsv_encode-not_Whole :
    (lib : Packages) (ebs pver : ℕ) (t : MessageType)
    → IsUnread t
    → (msg : Payload t) → IsInput (written (bsv_encode lib ebs pver t msg))
    → ¬ Whole (bsv_encode lib ebs pver t msg) (bsv_decode lib ebs pver t) msg
unfolding bsv_encode bsv_decode
bsv_encode-not_Whole lib ebs pver msg_ext_msg u msg i = ext_msg-not_Whole pver msg i
bsv_encode-not_Whole lib ebs pver msg_auth_ch u msg i =
    Takes-not_Whole (λ m. 5 + length m.challenge) msg Takes-auth_ch (Writes-auth_ch msg)
      (λ e. omega (arith, e)) i
bsv_encode-not_Whole lib ebs pver msg_auth_resp u msg i =
    Takes-not_Whole (λ m. 10 + length m.public_key + length m.signature) msg Takes-auth_resp
      (Writes-auth_resp msg) (λ e. omega (arith, e)) i
bsv_encode-not_Whole lib ebs pver msg_version u msg i = absurd u
bsv_encode-not_Whole lib ebs pver msg_ver_ack u msg i = absurd u
bsv_encode-not_Whole lib ebs pver msg_get_addr u msg i = absurd u
bsv_encode-not_Whole lib ebs pver msg_addr u msg i = absurd u
bsv_encode-not_Whole lib ebs pver msg_get_blocks u msg i = absurd u
bsv_encode-not_Whole lib ebs pver msg_inv u msg i = absurd u
bsv_encode-not_Whole lib ebs pver msg_get_data u msg i = absurd u
bsv_encode-not_Whole lib ebs pver msg_not_found u msg i = absurd u
bsv_encode-not_Whole lib ebs pver msg_get_headers u msg i = absurd u
bsv_encode-not_Whole lib ebs pver msg_headers u msg i = absurd u
bsv_encode-not_Whole lib ebs pver msg_ping u msg i = absurd u
bsv_encode-not_Whole lib ebs pver msg_pong u msg i = absurd u
bsv_encode-not_Whole lib ebs pver msg_mem_pool u msg i = absurd u
bsv_encode-not_Whole lib ebs pver msg_filter_clear u msg i = absurd u
bsv_encode-not_Whole lib ebs pver msg_send_headers u msg i = absurd u
bsv_encode-not_Whole lib ebs pver msg_filter_add u msg i = absurd u
bsv_encode-not_Whole lib ebs pver msg_filter_load u msg i = absurd u
bsv_encode-not_Whole lib ebs pver msg_fee_filter u msg i = absurd u
bsv_encode-not_Whole lib ebs pver msg_get_cfilters u msg i = absurd u
bsv_encode-not_Whole lib ebs pver msg_get_cfheaders u msg i = absurd u
bsv_encode-not_Whole lib ebs pver msg_get_cfcheckpt u msg i = absurd u
bsv_encode-not_Whole lib ebs pver msg_cfilter u msg i = absurd u
bsv_encode-not_Whole lib ebs pver msg_cf_headers u msg i = absurd u
bsv_encode-not_Whole lib ebs pver msg_send_cmpct u msg i = absurd u
bsv_encode-not_Whole lib ebs pver msg_stream_ack u msg i = absurd u
bsv_encode-not_Whole lib ebs pver msg_block u msg i = absurd u
bsv_encode-not_Whole lib ebs pver msg_tx u msg i = absurd u
bsv_encode-not_Whole lib ebs pver msg_extended_tx u msg i = absurd u
bsv_encode-not_Whole lib ebs pver msg_merkle_block u msg i = absurd u
bsv_encode-not_Whole lib ebs pver msg_reject u msg i = absurd u
bsv_encode-not_Whole lib ebs pver msg_cfcheckpt u msg i = absurd u
bsv_encode-not_Whole lib ebs pver msg_protoconf u msg i = absurd u
bsv_encode-not_Whole lib ebs pver msg_create_stream u msg i = absurd u
