-- ===== src/Framing/Aligned.antt =====
-- Where the two readers leave the stream.
use go_wire.Prelude.{
  not, none, [], refl, ℕ, ◌+◌, take, arith, false, List, ◌≡◌, ◌==◌, length, some, drop, ◌∙◌, ◌<◌,
  Bool, Option, ◌&&◌, true, if◌then◌else◌,
}
use go_wire.Framing.Discard.{left_of-read_full, discard_input-drop, left_of}
use go_wire.Framing.Receive.{
  handle, too_large, buffered_payload, Reply, act, inspect, take_buffered, refuse, check_type,
  received, take_streamed, read_message_n, failure, without_payloads, skip, streamed_payload,
  read_message_streaming_n, read_error, has_checksum, after_header, payload_length, Handlers,
  Verdict, accept,
}
use go_wire.Framing.Utf8.{valid_string}
use go_wire.Io.{Outcome, ok, err, read_full}
use go_wire.Limits.{max_message_payload}
use go_wire.Message.{make_empty_message, max_payload_length}
use go_wire.Message.Coding.{Packages}
use go_wire.Message.Commands.{cmd_version}
use go_wire.Message.Types.{Payload, MessageType}
use go_wire.MessageHeader.{MessageHeader, read_message_header, same_bytes, message_header_size}

buffered_payload-rest :
    (lib : Packages) (ebs pver : ℕ) (hdr : MessageHeader) (t : MessageType) (n available : ℕ)
    (o : Outcome (List ℕ))
    → (buffered_payload lib ebs pver hdr t n available o).rest ≡ left_of o
unfolding buffered_payload left_of
buffered_payload-rest lib ebs pver hdr t n available (ok payload rest) = refl
buffered_payload-rest lib ebs pver hdr t n available (err e rest) = refl

streamed_payload-rest :
    (lib : Packages) (hdr : MessageHeader) (t : MessageType) (n : ℕ) (limited after : List ℕ)
    (o : Outcome (Payload t))
    → (streamed_payload lib hdr t n limited after o).rest ≡ after
unfolding streamed_payload
streamed_payload-rest lib hdr t n limited after (err e left) = refl
streamed_payload-rest lib hdr t n limited after (ok msg left) =
    go
      (has_checksum hdr && not (same_bytes (take 4 (lib.sha256 (lib.sha256 limited))) hdr.checksum))
  where
    go :
        (b : Bool)
        → (if b then failure (n + payload_length hdr) read_error after else record {
          total_bytes = n + payload_length hdr;
          result = received (record { type_of = t; payload = msg }) [];
          rest = after;
        }).rest
          ≡ after
    go true = refl
    go false = refl

take_buffered-rest :
    (lib : Packages) (ebs pver : ℕ) (hdr : MessageHeader) (t : MessageType) (n : ℕ) (s : List ℕ)
    → (take_buffered lib ebs pver hdr t n s).rest ≡ drop (payload_length hdr) s
unfolding take_buffered
take_buffered-rest lib ebs pver hdr t n s =
    buffered_payload-rest lib ebs pver hdr t n (length s) (read_full (payload_length hdr) s)
    ∙ left_of-read_full (payload_length hdr) s

take_streamed-rest :
    (lib : Packages) (ebs pver : ℕ) (hdr : MessageHeader) (t : MessageType) (n : ℕ) (s : List ℕ)
    → (take_streamed lib ebs pver hdr t n s).rest ≡ drop (payload_length hdr) s
unfolding take_streamed
take_streamed-rest lib ebs pver hdr t n s = streamed_payload-rest lib hdr t n _ _ _

-- The payload is taken or skipped.
abbrev IsHandled : Verdict → Type 0
IsHandled (refuse e) = ⊥
IsHandled (skip e) = Unit {0}
IsHandled (accept t) = Unit {0}

check_type-IsHandled :
    (ebs pver : ℕ) (hdr : MessageHeader) (o : Option MessageType)
    → IsHandled (check_type ebs pver hdr o)
unfolding check_type
check_type-IsHandled ebs pver hdr none = tt
check_type-IsHandled ebs pver hdr (some t) = go (too_large (max_payload_length ebs pver t) hdr)
  where
    go : (b : Bool) → IsHandled (if b then skip read_error else accept t)
    go true = tt
    go false = tt

inspect-IsHandled :
    (streaming : Bool) (ebs pver bsvnet : ℕ) (hdr : MessageHeader)
    → too_large (max_message_payload ebs) hdr ≡ false
    → IsHandled (inspect streaming ebs pver bsvnet hdr)
unfolding inspect
inspect-IsHandled streaming ebs pver bsvnet hdr h = rw h (
    go (not (hdr.magic == bsvnet)) (not (valid_string hdr.command))
      (streaming && same_bytes hdr.command cmd_version) _
      (check_type-IsHandled ebs pver hdr (make_empty_message hdr.command)))
  where
    go :
        (a b c : Bool) (v : Verdict)
        → IsHandled v
        → IsHandled (
            if a
            then skip read_error
            else if b
            then skip read_error
            else if c
            then skip read_error
            else v)
    go true b c v h = tt
    go false true c v h = tt
    go false false true v h = tt
    go false false false v h = h

act-rest :
    (get : MessageType → ℕ → List ℕ → Reply) (handlers : Handlers) (hdr : MessageHeader) (n : ℕ)
    (s : List ℕ) (v : Verdict)
    → handlers hdr.command ≡ none
    → hdr.length < 0xffff_ffff
    → ((t : MessageType) → (get t n s).rest ≡ drop (payload_length hdr) s)
    → IsHandled v
    → (act get handlers hdr n s v).rest ≡ drop hdr.length s
unfolding act handle payload_length
act-rest get handlers hdr n s (refuse e) h l g i = absurd i
act-rest get handlers hdr n s (skip e) h l g i = discard_input-drop hdr.length s
act-rest get handlers hdr n s (accept t) h l g i =
    let plain : (hdr.length == 0xffff_ffff) ≡ false = ground (arith, l) in
    rw h (g t ∙ rw plain refl)

pub without_payloads-none :
    (handlers : Handlers) (c : List ℕ) → handlers c ≡ none → without_payloads handlers c ≡ none
unfolding without_payloads
without_payloads-none handlers c h = rw (without_payloads, h) refl

-- Where no handler is registered for the command of a header whose payload is within the limit of
-- all messages and shorter than 2 ^ 32 - 1 bytes, both readers leave the stream behind the payload
-- that the header declares, whatever they return: the next header is next.
pub read_message_n-aligned :
    (lib : Packages) (ebs pver bsvnet : ℕ) (handlers : Handlers) (s : List ℕ) (hdr : MessageHeader)
    (rest : List ℕ)
    → read_message_header s ≡ ok hdr rest
    → too_large (max_message_payload ebs) hdr ≡ false
    → hdr.length < 0xffff_ffff
    → handlers hdr.command ≡ none
    → ((read_message_n lib ebs pver bsvnet handlers s).rest ≡ drop hdr.length rest)
      × ((read_message_streaming_n lib ebs pver bsvnet handlers s).rest ≡ drop hdr.length rest)
unfolding read_message_n read_message_streaming_n after_header
read_message_n-aligned lib ebs pver bsvnet handlers s hdr rest e limit l h = (
  rw e (
      act-rest _ handlers hdr message_header_size rest _ h l
        (λ t. take_buffered-rest lib ebs pver hdr t message_header_size rest)
        (inspect-IsHandled false ebs pver bsvnet hdr limit)),
  rw e (
      act-rest _ (without_payloads handlers) hdr message_header_size rest _
        (without_payloads-none handlers hdr.command h) l
        (λ t. take_streamed-rest lib ebs pver hdr t message_header_size rest)
        (inspect-IsHandled true ebs pver bsvnet hdr limit)),
)
