-- ===== src/Framing/Sent.antt =====
-- What is written is read.
use go_wire.Prelude.{
  some, ◌≤◌, ℕ, List, ◌<◌, ◌%◌, ◌≡◌, length, arith, take, ◌∷◌, false, [], All, zero, refl, ◌^◌, suc,
  leb, ltb, true, le→ltb, ◌∙◌, ◌==◌, sym, ◌+◌, length-take-le, ◌++◌, none, append_assoc, inl, ◌⊎◌,
  inr,
}
use go_wire.Framing.CommandBytes.{command_of-IsCommand}
use go_wire.Framing.Receive.{
  check_type, check_and_decode, accept, decoded, inspect, received, too_large, handle,
  buffered_payload, after_header, read_message, has_checksum, take_buffered, act, Handlers,
  payload_length, outcome_of, read_message_n,
}
use go_wire.Framing.Write.{
  max_uint32, header_for, exceeds_int, write_payload, with_payload, write_message,
}
use go_wire.Io.{done, IsByte, ok, write, ◌▸◌, refuse_put, written}
use go_wire.Io.Reads.{read_full-append, RoundTrips}
use go_wire.Io.Writes.{done-injective}
use go_wire.Limits.{max_message_payload}
use go_wire.Message.{command_of, make_empty_message, max_payload_length}
use go_wire.Message.Bounds.{IsLimited, bsv_encode-AtMost}
use go_wire.Message.Coding.{Packages, bsv_encode, bsv_decode}
use go_wire.Message.RoundTrip.{bsv_decode-bsv_encode}
use go_wire.Message.Types.{Message}
use go_wire.Message.Valid.{IsMessage, ArePackages}
use go_wire.MessageHeader.{
  MessageHeader, same_bytes, announces_extension, command_size, message_header_size,
  write_message_header, read_message_header,
}
use go_wire.MessageHeader.Bytes.{same_bytes_refl}
use go_wire.MessageHeader.RoundTrip.{IsPlainHeader, read_message_header-write_message_header}

-- A message within the bounds of its type, of a type that makeEmptyMessage knows, whose payload is
-- within the limits of the writer and shorter than 2 ^ 32 - 1 bytes. The limit of its type needs no
-- check where MaxPayloadLength bounds the messages of the type.
pub record IsSendable (lib : Packages) (ebs pver bsvnet : ℕ) (msg : Message) (payload : List ℕ)
    : Type 0 where
  pub magic : bsvnet < 2 ^ 32
  pub limit : max_message_payload ebs < 2 ^ 63
  pub message : IsMessage ebs pver msg.type_of msg.payload
  pub known : make_empty_message (command_of msg.type_of) ≡ some msg.type_of
  pub encoded : bsv_encode lib ebs pver msg.type_of msg.payload ≡ done payload
  pub short : length payload < max_uint32
  pub within_limit : length payload ≤ max_message_payload ebs
  pub within_type : IsLimited msg.type_of ⊎ length payload ≤ max_payload_length ebs pver msg.type_of

take-All : (n : ℕ) (s : List ℕ) → All IsByte s → All IsByte (take n s)
take-All zero s h = tt
take-All (suc n) [] h = tt
take-All (suc n) (b ∷ s) h = (h.0, take-All n s h.1)

module _ (lib : Packages) (laws : ArePackages lib) (ebs pver bsvnet : ℕ) (msg : Message)
    (payload : List ℕ) (h : IsSendable lib ebs pver bsvnet msg payload) where
  own_header : MessageHeader
  own_header = record {
    magic = bsvnet;
    command = command_of msg.type_of;
    length = length payload;
    checksum = take 4 (lib.double_hash_b payload);
    ext_length = 0;
  }

  header_for-own : header_for lib bsvnet (command_of msg.type_of) payload ≡ own_header
  unfolding header_for own_header
  header_for-own =
      let e : length payload % 2 ^ 32 ≡ length payload = omega (arith, h.short) in
      let b : leb max_uint32 (length payload) ≡ false = ground (arith, h.short) in rw (e, b) refl

  own_header-IsPlainHeader : IsPlainHeader own_header
  unfolding own_header announces_extension
  own_header-IsPlainHeader =
      let c = command_of-IsCommand msg.type_of in
      let d = laws.digest payload in
      record {
        magic = h.magic;
        short = c.short;
        bytes = c.bytes;
        trimmed = c.trimmed;
        size = omega (arith, h.short);
        checksum =
            (length-take-le 4 (lib.double_hash_b payload) (omega (arith, d.0)), take-All 4 _ d.1);
        plain = rw c.plain refl;
        no_extension = refl;
      }

  payload_fits : length payload ≤ max_payload_length ebs pver msg.type_of
  unfolding written
  payload_fits = elim h.within_type [
    | inl limited ↦
        let b = bsv_encode-AtMost lib laws ebs pver msg.type_of limited msg.payload h.message in
        (rw h.encoded at b).within
    | inr fits ↦ fits
  ]

  inspect-own : inspect false ebs pver bsvnet own_header ≡ accept msg.type_of
  unfolding inspect own_header too_large check_type
  inspect-own =
      let c = command_of-IsCommand msg.type_of in
      let limit = le→ltb (max_message_payload ebs) (length payload) h.within_limit in
      let type_limit =
        le→ltb (max_payload_length ebs pver msg.type_of) (length payload) payload_fits in
      let no_more : ltb (max_message_payload ebs) 0 ≡ false = ground arith in
      let no_more' : ltb (max_payload_length ebs pver msg.type_of) 0 ≡ false = ground arith in
      let own_net : (bsvnet == bsvnet) ≡ true = ground arith in
      rw (limit, no_more, own_net, c.valid, h.known, type_limit, no_more') refl

  decoded-own : check_and_decode lib ebs pver own_header msg.type_of payload ≡ received msg payload
  unfolding check_and_decode own_header decoded has_checksum payload_length
  decoded-own =
      let w = bsv_decode-bsv_encode lib laws ebs pver msg.type_of msg.payload h.message in
      let e : w.bytes ≡ payload = done-injective (sym w.written ∙ h.encoded) in
      let d : bsv_decode lib ebs pver msg.type_of payload ≡ ok msg.payload [] = rw e at w.reads in
      let same : same_bytes (take 4 (lib.double_hash_b payload))
            (take 4 (lib.double_hash_b payload))
          ≡ true =
        same_bytes_refl (take 4 (lib.double_hash_b payload)) in
      let p : (length payload == 0xffff_ffff) ≡ false = ground (arith, h.short) in
      rw (same, p, p, d) refl

  take_buffered-own :
      (n : ℕ) (rest : List ℕ)
      → take_buffered lib ebs pver own_header msg.type_of n (payload ++ rest)
        ≡ record { total_bytes = n + length payload; result = received msg payload; rest = rest }
  unfolding take_buffered buffered_payload own_header payload_length
  take_buffered-own n rest =
      let p : (length payload == 0xffff_ffff) ≡ false = ground (arith, h.short) in
      let d : check_and_decode lib ebs pver own_header msg.type_of payload ≡ received msg payload =
        decoded-own in
      rw (p, read_full-append payload rest, d) refl

  write_message-own :
      write_message lib ebs pver bsvnet msg ≡ write_message_header own_header ▸ write payload
  unfolding write_message write_payload with_payload exceeds_int refuse_put
  write_message-own =
      let c = command_of-IsCommand msg.type_of in
      let limit = le→ltb (max_message_payload ebs) (length payload) h.within_limit in
      let type_limit =
        le→ltb (max_payload_length ebs pver msg.type_of) (length payload) payload_fits in
      let positive : leb (2 ^ 63) (max_message_payload ebs) ≡ false = ground (arith, h.limit) in
      let command_fits = le→ltb command_size (length (command_of msg.type_of)) c.short in
      let no_long : ltb max_uint32 (length payload) ≡ false = ground (arith, h.short) in
      rw (command_fits, h.encoded, limit, positive, type_limit, no_long, header_for-own) refl

  read_message-own :
      (handlers : Handlers) (s rest : List ℕ)
      → handlers (command_of msg.type_of) ≡ none
      → read_message_header s ≡ ok own_header (payload ++ rest)
      → read_message lib ebs pver bsvnet handlers s ≡ ok (msg, payload) rest
  unfolding read_message read_message_n after_header act handle outcome_of own_header
  read_message-own handlers s rest none_for e =
      let i : inspect false ebs pver bsvnet own_header ≡ accept msg.type_of = inspect-own in
      let b : take_buffered lib ebs pver own_header msg.type_of message_header_size
            (payload ++ rest)
          ≡ record {
            total_bytes = message_header_size + length payload;
            result = received msg payload;
            rest = rest;
          } =
        take_buffered-own message_header_size rest in
      rw (e, i, none_for, b) refl

  -- For a network of 32 bits and a limit of all messages below 2 ^ 63: a message within the bounds of
  -- its type, of a type that makeEmptyMessage knows, whose payload is within the limits of the writer
  -- and shorter than 2 ^ 32 - 1 bytes, is written without an error; and on what is written, followed
  -- by anything, ReadMessage returns the message and its payload and leaves what follows, where no
  -- handler is registered for its command. The limit of its type is no condition where
  -- MaxPayloadLength bounds the messages of the type.
  pub read_message-write_message :
      (handlers : Handlers)
      → handlers (command_of msg.type_of) ≡ none
      → RoundTrips
          (write_message lib ebs pver bsvnet msg)
          (read_message lib ebs pver bsvnet handlers)
          (msg, payload)
  read_message-write_message handlers none_for =
      let r = read_message_header-write_message_header own_header own_header-IsPlainHeader in
      record {
        bytes = r.bytes ++ payload;
        written = rw (write_message-own, r.written) refl;
        reads = λ rest. rw (append_assoc r.bytes payload rest) (
            read_message-own handlers (r.bytes ++ (payload ++ rest)) rest none_for
              (r.reads (payload ++ rest)));
      }
