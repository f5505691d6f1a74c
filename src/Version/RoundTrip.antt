-- ===== src/Version/RoundTrip.antt =====
-- What the version message reads and writes, from BIP0037Version on.
use go_wire.Prelude.{
  refl, arith, length, Bool, le→ltb, ℕ, ◌≡◌, false, ◌≤◌, true, not, le→leb, ◌∷◌, [], List, suc, ltb,
}
use go_wire.Binary.{uint32, uint_of, uint64, uint8}
use go_wire.Element.{bool, read_elements, uint64_kind, int32, read_element}
use go_wire.Element.Transfer.{RoundTrips-elements, RoundTrips-element}
use go_wire.FilterMessages.{bip0037_version}
use go_wire.Io.{read_full, refuse_if}
use go_wire.Io.Reads.{RoundTrips, RoundTrips-last}
use go_wire.Limits.{max_message_payload}
use go_wire.NetAddress.{read_net_address, NetAddress, write_net_address, read_time, IsNetAddress}
use go_wire.NetAddress.Transfer.{read_net_address-IsCodec}
use go_wire.Streams.{max_association_id_len}
use go_wire.VarBytes.{read_var_bytes, write_var_string, read_var_string}
use go_wire.VarBytes.Transfer.{RoundTrips-var_string, RoundTrips-var_bytes}
use go_wire.VarInt.{read_var_int}
use go_wire.Version.{
  read_disable_relay, max_user_agent_len, write_relay, zero_address, write_association, IsVersion,
  version_bsv_encode, validate_user_agent, version_bsv_decode, MsgVersion, version_kinds,
  read_user_agent, if_more,
}
use go_wire.Version.ToEnd.{
  RoundTrips-more, Whole-written, Whole-bind, Whole-last, Whole, Whole-missing, RoundTrips-Whole,
}

not-not : (b : Bool) → not (not b) ≡ b
not-not true = refl
not-not false = refl

RoundTrips-relay :
    (pver : ℕ)
    → bip0037_version ≤ pver
    → (b : Bool) → RoundTrips (write_relay pver b) (if_more read_disable_relay false) b
unfolding write_relay read_disable_relay read_element uint8 uint_of read_full
RoundTrips-relay pver h b = rw (le→leb bip0037_version pver h) (
    RoundTrips-more false refl
      (RoundTrips-last _ (RoundTrips-element bool (not b) tt) (λ s. rw (not-not b) refl)))

RoundTrips-agent :
    (ebs : ℕ) (agent : List ℕ)
    → length agent ≤ max_user_agent_len
    → length agent ≤ max_message_payload ebs
    → RoundTrips (write_var_string agent) (if_more (read_user_agent ebs) []) agent
unfolding refuse_if read_user_agent validate_user_agent read_var_string read_var_int uint8 uint_of
    read_full
RoundTrips-agent ebs agent short h = RoundTrips-more [] refl (
    RoundTrips-last _ (RoundTrips-var_string ebs agent (omega (arith, short)) h)
      (λ s. rw (le→ltb max_user_agent_len _ short) refl))

Whole-association :
    (bs : List ℕ)
    → length bs ≤ max_association_id_len
    → Whole (write_association bs) (if_more (read_var_bytes max_association_id_len) []) bs
unfolding write_association read_var_bytes read_var_int uint8 uint_of read_full
Whole-association [] h = Whole-missing _ []
Whole-association (b ∷ bs) h =
    let some_bytes : ltb 0 (suc (length bs)) ≡ true = ground arith in
    rw some_bytes (
      RoundTrips-Whole (
        RoundTrips-more [] refl
          (RoundTrips-var_bytes max_association_id_len (b ∷ bs) (omega (arith, h)) h)))

module _ (to16 : List ℕ → List ℕ) (keeps : (i : List ℕ) → length i ≡ 16 → to16 i ≡ i) where
  RoundTrips-me :
      (pver : ℕ) (na : NetAddress)
      → IsNetAddress false na
      → RoundTrips
          (write_net_address to16 pver na false)
          (if_more (read_net_address pver false) zero_address)
          na
  unfolding read_net_address read_time read_elements read_element uint64 uint_of read_full
  RoundTrips-me pver na h =
      RoundTrips-more zero_address refl
        ((read_net_address-IsCodec to16 keeps pver false).reads_back na h)

  -- In a version of the protocol from BIP0037Version on, and for every `to16` that keeps an IP of 16
  -- bytes: a version message whose fields fit their types, whose two addresses have an IP of 16 bytes
  -- and the zero time, with an agent of at most 256 bytes that is within the limit of all messages, and
  -- with an association ID of at most 129 bytes or none, is encoded without an error, and its encoding
  -- with nothing behind it decodes to it.
  pub version_bsv_decode-version_bsv_encode :
      (ebs pver : ℕ) (msg : MsgVersion)
      → IsVersion ebs msg
      → bip0037_version ≤ pver
      → Whole (version_bsv_encode to16 pver msg) (version_bsv_decode ebs pver) msg
  unfolding version_bsv_decode version_bsv_encode validate_user_agent read_element uint32 uint64
      uint_of read_full
  version_bsv_decode-version_bsv_encode ebs pver msg h new =
      Whole-written _ _ (le→ltb max_user_agent_len _ h.short_agent) (
        Whole-bind _ (RoundTrips-elements version_kinds _ h.fields) (
          Whole-bind _
            ((read_net_address-IsCodec to16 keeps pver false).reads_back msg.addr_you h.you)
            (Whole-bind _ (RoundTrips-me pver msg.addr_me h.me) (
              Whole-bind _
                (RoundTrips-more 0 refl (RoundTrips-element uint64_kind msg.nonce h.nonce))
                (Whole-bind _ (RoundTrips-agent ebs msg.user_agent h.short_agent h.agent) (
                  Whole-bind _
                    (RoundTrips-more 0 refl (RoundTrips-element int32 msg.last_block h.last_block))
                    (Whole-bind _ (RoundTrips-relay pver new msg.disable_relay_tx) (
                      Whole-last _ (Whole-association msg.association_id h.association)
                        (λ s. refl)))))))))
