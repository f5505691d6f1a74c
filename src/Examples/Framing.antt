-- ===== src/Examples/Framing.antt =====
-- Messages on a stream, for packages that satisfy what the code relies on.
use go_wire.Prelude.{arith, List, ◌∷◌, ℕ, ◌%◌, [], length, replicate, ◌++◌, ◌≡◌, none, refl, inl}
use go_wire.Auth.{auth_resp_bsv_encode, new_msg_auth_resp, MsgAuthresp}
use go_wire.Binary.{
  uint32, le, of_order, uint_of, uint64, put_uint64, from_le, order_bytes, put_uint32,
}
use go_wire.Element.{read_element, write_element, write_elements}
use go_wire.Framing.Agreement.{SameReply, read_message_streaming_n-SameReply}
use go_wire.Framing.Aligned.{read_message_n-aligned}
use go_wire.Framing.Checked.{Accepted, read_message-checked, Payloaded}
use go_wire.Framing.Receive.{
  handle, failed, check_and_decode, after_header, Handlers, read_message_n, payload_length,
  read_error, read_message, act, has_checksum, outcome_of, take_buffered, decoded, buffered_payload,
  check_type, read_message_streaming_n, too_large, inspect,
}
use go_wire.Framing.Sent.{read_message-write_message, IsSendable}
use go_wire.Framing.Sequence.{read_messages-write_messages}
use go_wire.Framing.Unknown.{read_message_n-get_cfheaders}
use go_wire.Framing.Utf8.{after_first, valid_from, valid_string}
use go_wire.Framing.Write.{write_message}
use go_wire.Inventory.{MsgInv}
use go_wire.Io.{written, write_each, read_full, read_times, ok, IsInput}
use go_wire.Io.Reads.{RoundTrips}
use go_wire.Limits.{default_ebs, max_message_payload}
use go_wire.Message.{switch, make_empty_message, max_payload_length, command_of}
use go_wire.Message.AtMost.{AtMost}
use go_wire.Message.Bounds.{bsv_encode-AtMost}
use go_wire.Message.Coding.{bsv_decode, bsv_encode, Packages}
use go_wire.Message.RoundTrip.{bsv_decode-bsv_encode}
use go_wire.Message.Types.{msg_inv, msg_ping, Message, msg_auth_resp}
use go_wire.Message.Unread.{bsv_encode-not_Whole}
use go_wire.Message.Valid.{ArePackages}
use go_wire.MessageHeader.{
  trim_zeros, trim_step, read_kept, same_bytes, read_message_header, MessageHeader, parse_header,
  announces_extension,
}
use go_wire.Ping.{ping_bsv_encode, ping_bsv_decode, ping_max_payload_length}
use go_wire.VarInt.{read_var_int, write_var_int}
use go_wire.VarInt.Transfer.{Bytes-var_int}
use go_wire.Version.ToEnd.{Whole}

-- 32 bytes that depend on the length alone
abbrev toy_digest : List ℕ → List ℕ
toy_digest s = length s % 256 ∷ replicate 31 0

abbrev toy : Packages
toy = record {
  to_16 = λ i. i;
  vi_read = read_var_int;
  vi_bytes = λ v. written (write_var_int v);
  double_hash_b = λ s. toy_digest (toy_digest s);
  sha256 = toy_digest;
}

toy-ArePackages : ArePackages toy
toy-ArePackages = record {
  to_16 = λ i h. refl;
  vi_back = Bytes-var_int;
  digest = λ s. (refl, omega arith);
  double_hash = λ s. refl;
}

abbrev ping_7 : Message
ping_7 = record { type_of = msg_ping; payload = record { nonce = 7 } }

abbrev ping_7_payload : List ℕ
ping_7_payload = 7 ∷ replicate 7 0

abbrev main_net : ℕ
main_net = 0xe8f3_e1e3

abbrev no_handlers : Handlers
no_handlers c = none

ping_7-IsSendable : IsSendable toy default_ebs 70013 main_net ping_7 ping_7_payload
unfolding max_message_payload make_empty_message switch command_of same_bytes bsv_encode
    ping_bsv_encode write_element put_uint64 order_bytes le max_payload_length
    ping_max_payload_length
ping_7-IsSendable = record {
  magic = omega arith;
  limit = omega arith;
  message = omega arith;
  known = refl;
  encoded = refl;
  short = omega arith;
  within_limit = omega arith;
  within_type = inl tt;
}

none_for : (c : List ℕ) → no_handlers c ≡ none
none_for c = refl

read_message-write_message_example :
    RoundTrips
      (write_message toy default_ebs 70013 main_net ping_7)
      (read_message toy default_ebs 70013 main_net no_handlers)
      (ping_7, ping_7_payload)
read_message-write_message_example =
    read_message-write_message toy toy-ArePackages default_ebs 70013 main_net ping_7 ping_7_payload
      ping_7-IsSendable no_handlers (none_for (command_of msg_ping))

read_messages-write_messages_example :
    RoundTrips
      (write_each
        (λ (m : Message × List ℕ). write_message toy default_ebs 70013 main_net m.0)
        ((ping_7, ping_7_payload) ∷ (ping_7, ping_7_payload) ∷ []))
      (read_times 2 (read_message toy default_ebs 70013 main_net no_handlers))
      ((ping_7, ping_7_payload) ∷ (ping_7, ping_7_payload) ∷ [])
read_messages-write_messages_example =
    read_messages-write_messages toy toy-ArePackages default_ebs 70013 main_net no_handlers none_for
      ((ping_7, ping_7_payload) ∷ (ping_7, ping_7_payload) ∷ [])
      (ping_7-IsSendable, (ping_7-IsSendable, tt))

bsv_decode-bsv_encode_example :
    Whole
      (bsv_encode toy default_ebs 70013 msg_ping (record { nonce = 7 }))
      (bsv_decode toy default_ebs 70013 msg_ping)
      (record { nonce = 7 })
bsv_decode-bsv_encode_example =
    bsv_decode-bsv_encode toy toy-ArePackages default_ebs 70013 msg_ping (record { nonce = 7 })
      (omega arith)

-- The header of ping_7, and the stream with it.
abbrev ping_header : MessageHeader
ping_header = record {
  magic = main_net;
  command = 0x70 ∷ 0x69 ∷ 0x6e ∷ 0x67 ∷ [];
  length = 8;
  checksum = 32 ∷ 0 ∷ 0 ∷ 0 ∷ [];
  ext_length = 0;
}

abbrev header_stream : List ℕ → ℕ → List ℕ → List ℕ
header_stream cmd n checksum =
    (0xe3 ∷ 0xe1 ∷ 0xf3 ∷ 0xe8 ∷ []) ++ (cmd ++ (n ∷ 0 ∷ 0 ∷ 0 ∷ checksum))

abbrev ping_command : List ℕ
ping_command = 0x70 ∷ 0x69 ∷ 0x6e ∷ 0x67 ∷ replicate 8 0

abbrev ping_stream : List ℕ
ping_stream = header_stream ping_command 8 (32 ∷ 0 ∷ 0 ∷ 0 ∷ []) ++ (ping_7_payload ++ (9 ∷ []))

ping_header-read : read_message_header ping_stream ≡ ok ping_header (ping_7_payload ++ (9 ∷ []))
unfolding read_message_header parse_header read_kept announces_extension same_bytes trim_zeros
    trim_step read_full read_element uint32 uint_of of_order from_le
ping_header-read = refl

ping_read :
    read_message toy default_ebs 70013 main_net no_handlers ping_stream
    ≡ ok (ping_7, ping_7_payload) (9 ∷ [])
unfolding read_message read_message_n after_header read_message_header parse_header read_kept
    announces_extension same_bytes trim_zeros trim_step read_full read_element uint32 uint_of
    of_order from_le uint64 inspect too_large max_message_payload valid_string valid_from
    after_first check_type make_empty_message switch max_payload_length ping_max_payload_length act
    handle take_buffered buffered_payload payload_length check_and_decode has_checksum decoded
    bsv_decode ping_bsv_decode outcome_of
ping_read = refl

read_message-checked_example :
    (hdr : MessageHeader) × (read_message_header ping_stream ≡ ok hdr (ping_7_payload ++ (9 ∷ [])))
    × Accepted default_ebs 70013 main_net hdr msg_ping
    × Payloaded toy default_ebs 70013 hdr msg_ping ping_7_payload ping_7
read_message-checked_example =
    read_message-checked toy default_ebs 70013 main_net no_handlers none_for ping_stream ping_7
      ping_7_payload (9 ∷ []) (record { bytes = omega arith; short = omega arith }) ping_read

read_message_streaming_n-SameReply_example :
    SameReply
      (read_message_n toy default_ebs 70013 main_net no_handlers ping_stream)
      (read_message_streaming_n toy default_ebs 70013 main_net no_handlers ping_stream)
unfolding same_bytes payload_length
read_message_streaming_n-SameReply_example =
    read_message_streaming_n-SameReply toy toy-ArePackages default_ebs 70013 main_net no_handlers
      ping_stream ping_header (ping_7_payload ++ (9 ∷ [])) ping_header-read refl (omega arith)
      (none_for ping_header.command)

read_message_n-aligned_example :
    ((read_message_n toy default_ebs 70013 main_net no_handlers ping_stream).rest ≡ 9 ∷ [])
    × ((read_message_streaming_n toy default_ebs 70013 main_net no_handlers ping_stream).rest
        ≡ 9 ∷ [])
unfolding too_large max_message_payload
read_message_n-aligned_example =
    read_message_n-aligned toy default_ebs 70013 main_net no_handlers ping_stream ping_header
      (ping_7_payload ++ (9 ∷ [])) ping_header-read refl (omega arith)
      (none_for ping_header.command)

abbrev cf_headers_stream : List ℕ
cf_headers_stream =
    header_stream
      (0x67 ∷ 0x65 ∷ 0x74 ∷ 0x63 ∷ 0x66 ∷ 0x68 ∷ 0x65 ∷ 0x61 ∷ 0x64 ∷ 0x65 ∷ 0x72 ∷ 0x73 ∷ []) 37
      (replicate 4 0)

abbrev cf_headers_header : MessageHeader
cf_headers_header = record {
  magic = main_net;
  command = 0x67 ∷ 0x65 ∷ 0x74 ∷ 0x63 ∷ 0x66 ∷ 0x68 ∷ 0x65 ∷ 0x61 ∷ 0x64 ∷ 0x65 ∷ 0x72 ∷ 0x73 ∷ [];
  length = 37;
  checksum = replicate 4 0;
  ext_length = 0;
}

cf_headers_header-read : read_message_header cf_headers_stream ≡ ok cf_headers_header []
unfolding read_message_header parse_header read_kept announces_extension same_bytes trim_zeros
    trim_step read_full read_element uint32 uint_of of_order from_le
cf_headers_header-read = refl

read_message_n-get_cfheaders_example :
    ((read_message_n toy default_ebs 70013 main_net no_handlers cf_headers_stream).result
      ≡ failed read_error)
    × ((read_message_streaming_n toy default_ebs 70013 main_net no_handlers
          cf_headers_stream).result
        ≡ failed read_error)
unfolding command_of
read_message_n-get_cfheaders_example =
    read_message_n-get_cfheaders toy default_ebs 70013 main_net no_handlers cf_headers_stream
      cf_headers_header [] cf_headers_header-read refl

abbrev two_transactions : MsgInv
two_transactions = record {
  inv_list =
      record { type = 1; hash = replicate 32 3 } ∷ record { type = 1; hash = replicate 32 4 } ∷ [];
}

bsv_encode-AtMost_example :
    AtMost
      (bsv_encode toy default_ebs 70016 msg_inv two_transactions)
      (max_payload_length default_ebs 70016 msg_inv)
bsv_encode-AtMost_example =
    bsv_encode-AtMost toy toy-ArePackages default_ebs 70016 msg_inv tt two_transactions (
      omega arith,
      ((omega arith, ((refl, omega arith), tt)), ((omega arith, ((refl, omega arith), tt)), tt)),
    )

abbrev nonce_response : MsgAuthresp
nonce_response = new_msg_auth_resp 7 (1 ∷ 2 ∷ []) (3 ∷ [])

nonce_response-IsInput :
    IsInput (written (bsv_encode toy default_ebs 70016 msg_auth_resp nonce_response))
unfolding bsv_encode auth_resp_bsv_encode new_msg_auth_resp write_elements write_element put_uint32
    put_uint64 order_bytes le written
nonce_response-IsInput = record { bytes = omega arith; short = omega arith }

bsv_encode-not_Whole_example :
    ¬ Whole
      (bsv_encode toy default_ebs 70016 msg_auth_resp nonce_response)
      (bsv_decode toy default_ebs 70016 msg_auth_resp)
      nonce_response
bsv_encode-not_Whole_example =
    bsv_encode-not_Whole toy default_ebs 70016 msg_auth_resp tt nonce_response
      nonce_response-IsInput
