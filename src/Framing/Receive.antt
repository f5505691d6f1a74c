-- ===== src/Framing/Receive.antt =====
-- message.go: ReadMessageWithEncodingN, which buffers the payload, and ReadMessageStreamingN, which
-- decodes it from the stream. The handlers of SetExternalHandler are an argument.
use go_wire.Prelude.{
  ◌-◌, Bool, if◌then◌else◌, true, [], Option, none, ◌+◌, length, false, drop, some, ℕ, ◌==◌, ltb,
  List, take, not, ◌&&◌, ◌||◌,
}
use go_wire.Framing.Discard.{discard_input}
use go_wire.Framing.Utf8.{valid_string}
use go_wire.Io.{Outcome, ok, Error, message_error, read_full, err, Read}
use go_wire.Limits.{max_message_payload}
use go_wire.Message.{max_payload_length, make_empty_message}
use go_wire.Message.Coding.{bsv_decode, Packages}
use go_wire.Message.Commands.{cmd_version}
use go_wire.Message.Types.{Payload, MessageType, Message}
use go_wire.MessageHeader.{MessageHeader, message_header_size, read_message_header, same_bytes}

-- What a call returns, the number of bytes read included, and what is left of the stream. The
-- buffered reader also returns the payload; a handler may return none.
pub data Result : Type 0 where
  failed : Error → Result
  received : Message → List ℕ → Result

pub record Reply : Type 0 where
  pub total_bytes : ℕ
  pub result : Result
  pub rest : List ℕ

-- a handler is given the stream, the length of the payload and the number of bytes read
abbrev pub Handler : Type 0
Handler = List ℕ → ℕ → ℕ → Reply

abbrev pub Handlers : Type 0
Handlers = List ℕ → Option Handler

unfoldable pub set_external_handler : List ℕ → Handler → Handlers → Handlers
set_external_handler cmd handler handlers c = if same_bytes c cmd then some handler else handlers c

-- What the checks of the header come to: an error with the payload left on the stream, an error
-- with the payload discarded, or the type of the message.
pub data Verdict : Type 0 where
  refuse : Error → Verdict
  skip : Error → Verdict
  accept : MessageType → Verdict

abbrev pub read_error : Error
read_error = message_error "ReadMessage"

unfoldable pub too_large : ℕ → MessageHeader → Bool
too_large limit hdr = ltb limit hdr.length || ltb limit hdr.ext_length

-- The check of the largest payload that a message of the type can have.
unfoldable pub check_type : ℕ → ℕ → MessageHeader → Option MessageType → Verdict
check_type ebs pver hdr none = skip read_error
check_type ebs pver hdr (some t) =
    if too_large (max_payload_length ebs pver t) hdr then skip read_error else accept t

-- The checks of the header in their order. The streaming reader refuses a version message.
unfoldable pub inspect : Bool → ℕ → ℕ → ℕ → MessageHeader → Verdict
inspect streaming ebs pver bsvnet hdr =
    if too_large (max_message_payload ebs) hdr
    then refuse read_error
    else if not (hdr.magic == bsvnet)
    then skip read_error
    else if not (valid_string hdr.command)
    then skip read_error
    else if streaming && same_bytes hdr.command cmd_version
    then skip read_error
    else check_type ebs pver hdr (make_empty_message hdr.command)

-- the length of the payload
unfoldable pub payload_length : MessageHeader → ℕ
payload_length hdr = if hdr.length == 0xffff_ffff then hdr.ext_length else hdr.length

-- whether the checksum is verified
unfoldable pub has_checksum : MessageHeader → Bool
has_checksum hdr = not (payload_length hdr == 0xffff_ffff) && (hdr.ext_length == 0)

abbrev pub failure : ℕ → Error → List ℕ → Reply
failure n e rest = record { total_bytes = n; result = failed e; rest = rest }

-- `msg.Bsvdecode(pr, …)` on a buffer: what is left of the buffer is dropped
unfoldable pub decoded : (t : MessageType) → List ℕ → Outcome (Payload t) → Result
decoded t payload (ok msg rest) = received (record { type_of = t; payload = msg }) payload
decoded t payload (err e rest) = failed e

unfoldable pub check_and_decode : Packages → ℕ → ℕ → MessageHeader → MessageType → List ℕ → Result
check_and_decode lib ebs pver hdr t payload =
    if has_checksum hdr && not (same_bytes (take 4 (lib.double_hash_b payload)) hdr.checksum)
    then failed read_error
    else decoded t payload (bsv_decode lib ebs pver t payload)

-- `io.ReadFull(r, payload)` and what follows
unfoldable pub buffered_payload :
    Packages → ℕ → ℕ → MessageHeader → MessageType → ℕ → ℕ → Outcome (List ℕ) → Reply
buffered_payload lib ebs pver hdr t n available (ok payload rest) = record {
  total_bytes = n + length payload;
  result = check_and_decode lib ebs pver hdr t payload;
  rest = rest;
}
buffered_payload lib ebs pver hdr t n available (err e rest) =
    failure (n + (available - length rest)) e rest

unfoldable pub take_buffered : Packages → ℕ → ℕ → MessageHeader → MessageType → ℕ → List ℕ → Reply
take_buffered lib ebs pver hdr t n s =
    buffered_payload lib ebs pver hdr t n (length s) (read_full (payload_length hdr) s)

-- After Bsvdecode on the limited reader, which held `limited` and leaves `left`: the reader is
-- drained on every path.
unfoldable pub streamed_payload :
    Packages → MessageHeader → (t : MessageType) → ℕ → List ℕ → List ℕ → Outcome (Payload t) → Reply
streamed_payload lib hdr t n limited after (err e left) =
    failure (n + (length limited - length left)) e after
streamed_payload lib hdr t n limited after (ok msg left) =
    if has_checksum hdr && not (same_bytes (take 4 (lib.sha256 (lib.sha256 limited))) hdr.checksum)
    then failure (n + payload_length hdr) read_error after
    else record {
      total_bytes = n + payload_length hdr;
      result = received (record { type_of = t; payload = msg }) [];
      rest = after;
    }

unfoldable pub take_streamed : Packages → ℕ → ℕ → MessageHeader → MessageType → ℕ → List ℕ → Reply
take_streamed lib ebs pver hdr t n s =
    let limited = take (payload_length hdr) s in
    streamed_payload lib hdr t n limited (drop (payload_length hdr) s)
      (bsv_decode lib ebs pver t limited)

-- A registered handler comes before either way to take the payload.
unfoldable pub handle : Option Handler → MessageHeader → ℕ → List ℕ → Reply → Reply
handle (some handler) hdr n s reply = handler s (payload_length hdr) n
handle none hdr n s reply = reply

unfoldable pub act :
    (MessageType → ℕ → List ℕ → Reply) → Handlers → MessageHeader → ℕ → List ℕ → Verdict → Reply
act get handlers hdr n s (refuse e) = failure n e s
act get handlers hdr n s (skip e) = failure n e (discard_input hdr.length s)
act get handlers hdr n s (accept t) = handle (handlers hdr.command) hdr n s (get t n s)

-- `readMessageHeader(r)` on a stream of `available` bytes, and what follows
unfoldable pub after_header : ℕ → (MessageHeader → List ℕ → Reply) → Outcome MessageHeader → Reply
after_header available k (ok hdr rest) = k hdr rest
after_header available k (err e rest) = failure (available - length rest) e rest

unfoldable pub read_message_n : Packages → ℕ → ℕ → ℕ → Handlers → List ℕ → Reply
read_message_n lib ebs pver bsvnet handlers s =
    after_header (length s)
      (λ hdr rest.
        act (take_buffered lib ebs pver hdr) handlers hdr message_header_size rest
          (inspect false ebs pver bsvnet hdr))
      (read_message_header s)

-- The streaming reader drops the payload that a handler returns.
unfoldable pub drop_payload : Result → Result
drop_payload (failed e) = failed e
drop_payload (received msg payload) = received msg []

unfoldable pub without_payloads : Handlers → Handlers
without_payloads handlers c = elim (handlers c) [
  | none ↦ none
  | some handler ↦ some (λ s n total.
      let reply = handler s n total in record reply { result = drop_payload reply.result })
]

unfoldable pub read_message_streaming_n : Packages → ℕ → ℕ → ℕ → Handlers → List ℕ → Reply
read_message_streaming_n lib ebs pver bsvnet handlers s =
    after_header (length s)
      (λ hdr rest.
        act (take_streamed lib ebs pver hdr) (without_payloads handlers) hdr message_header_size
          rest (inspect true ebs pver bsvnet hdr))
      (read_message_header s)

-- ReadMessage: the reply without the number of bytes read
unfoldable pub outcome_of : Result → List ℕ → Outcome (Message × List ℕ)
outcome_of (failed e) rest = err e rest
outcome_of (received msg payload) rest = ok (msg, payload) rest

unfoldable pub read_message : Packages → ℕ → ℕ → ℕ → Handlers → Read (Message × List ℕ)
read_message lib ebs pver bsvnet handlers s =
    let reply = read_message_n lib ebs pver bsvnet handlers s in outcome_of reply.result reply.rest
