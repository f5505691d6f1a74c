-- ===== src/Framing/Agreement.antt =====
-- The streaming reader agrees with the buffered one.
use go_wire.Prelude.{
  Bool-cases, false, none, List, ap, refl, ◌≡◌, arith, ℕ, length, take, [], inr, not, ◌+◌, ◌∷◌, ◌≤◌,
  inl, Bool, ◌&&◌, drop, zero, suc, if◌then◌else◌, length-take-le,
}
use go_wire.Framing.Aligned.{without_payloads-none}
use go_wire.Framing.Receive.{
  received, Verdict, Reply, accept, streamed_payload, act, refuse, payload_length, inspect, skip,
  without_payloads, buffered_payload, read_message_streaming_n, has_checksum, handle, Result,
  take_buffered, read_error, take_streamed, read_message_n, check_and_decode, after_header, decoded,
  failed, Handlers,
}
use go_wire.Io.{Outcome, read_full, ok, err}
use go_wire.Message.Coding.{bsv_decode, Packages}
use go_wire.Message.Commands.{cmd_version}
use go_wire.Message.Types.{MessageType, Payload}
use go_wire.Message.Valid.{ArePackages}
use go_wire.MessageHeader.{same_bytes, MessageHeader, message_header_size, read_message_header}

read_full-whole : (n : ℕ) (s : List ℕ) → n ≤ length s → read_full n s ≡ ok (take n s) (drop n s)
unfolding read_full
read_full-whole zero s h = refl
read_full-whole (suc n) [] h = absurd (omega (arith, h))
read_full-whole (suc n) (b ∷ s) h = rw (read_full-whole n s (omega (arith, h))) refl

-- Both receive the same message after the same number of bytes, or both fail.
abbrev pub SameResult : Result → ℕ → Result → ℕ → Type 0
SameResult (received m p) n (received m' p') n' = (m ≡ m') × (n ≡ n')
SameResult (failed e) n (failed e') n' = Unit {0}
SameResult r n r' n' = ⊥

abbrev pub SameReply : Reply → Reply → Type 0
SameReply r r' = SameResult r.result r.total_bytes r'.result r'.total_bytes × (r.rest ≡ r'.rest)

-- What both readers ask of the checksum, by the digest of the digest.
abbrev fails_checksum : Packages → MessageHeader → List ℕ → Bool
fails_checksum lib hdr payload =
    has_checksum hdr && not (same_bytes (take 4 (lib.sha256 (lib.sha256 payload))) hdr.checksum)

streamed-SameReply :
    (lib : Packages) (hdr : MessageHeader) (t : MessageType) (n : ℕ) (limited after : List ℕ)
    → length limited ≡ payload_length hdr
    → (o : Outcome (Payload t))
    → SameReply
        (record {
          total_bytes = n + length limited;
          result =
              if fails_checksum lib hdr limited then failed read_error else decoded t limited o;
          rest = after;
        })
        (streamed_payload lib hdr t n limited after o)
unfolding streamed_payload decoded
streamed-SameReply lib hdr t n limited after e (err x left) =
    elim (Bool-cases (fails_checksum lib hdr limited)) [
      | inl bad ↦ rw bad (tt, refl)
      | inr good ↦ rw good (tt, refl)
    ]
streamed-SameReply lib hdr t n limited after e (ok msg left) =
    elim (Bool-cases (fails_checksum lib hdr limited)) [
      | inl bad ↦ rw bad (tt, refl)
      | inr good ↦ rw good ((refl, ap (λ k. n + k) e), refl)
    ]

taken-SameReply :
    (lib : Packages)
    → ArePackages lib
    → (ebs pver : ℕ) (hdr : MessageHeader) (t : MessageType) (n : ℕ) (s : List ℕ)
    → payload_length hdr ≤ length s
    → SameReply (take_buffered lib ebs pver hdr t n s) (take_streamed lib ebs pver hdr t n s)
unfolding take_buffered take_streamed buffered_payload check_and_decode
taken-SameReply lib laws ebs pver hdr t n s h =
    let size = length-take-le (payload_length hdr) s h in
    rw (read_full-whole (payload_length hdr) s h, laws.double_hash)
      (streamed-SameReply lib hdr t n (take (payload_length hdr) s) (drop (payload_length hdr) s)
        size (bsv_decode lib ebs pver t (take (payload_length hdr) s)))

act-SameReply :
    (get get' : MessageType → ℕ → List ℕ → Reply) (handlers handlers' : Handlers)
    (hdr : MessageHeader) (n : ℕ) (s : List ℕ) (v : Verdict)
    → handlers hdr.command ≡ none
    → handlers' hdr.command ≡ none
    → ((t : MessageType) → SameReply (get t n s) (get' t n s))
    → SameReply (act get handlers hdr n s v) (act get' handlers' hdr n s v)
unfolding act handle
act-SameReply get get' handlers handlers' hdr n s (refuse e) h h' g = (tt, refl)
act-SameReply get get' handlers handlers' hdr n s (skip e) h h' g = (tt, refl)
act-SameReply get get' handlers handlers' hdr n s (accept t) h h' g = rw (h, h') (g t)

-- On a stream that holds the payload that its header declares in full, where the command is not that
-- of a version message and no handler is registered for it, the streaming reader and the buffered
-- one agree: both return the same message after the same number of bytes, or both fail; and they
-- leave the same of the stream.
pub read_message_streaming_n-SameReply :
    (lib : Packages)
    → ArePackages lib
    → (ebs pver bsvnet : ℕ) (handlers : Handlers) (s : List ℕ) (hdr : MessageHeader) (rest : List ℕ)
    → read_message_header s ≡ ok hdr rest
    → same_bytes hdr.command cmd_version ≡ false
    → payload_length hdr ≤ length rest
    → handlers hdr.command ≡ none
    → SameReply
        (read_message_n lib ebs pver bsvnet handlers s)
        (read_message_streaming_n lib ebs pver bsvnet handlers s)
unfolding read_message_n read_message_streaming_n after_header inspect
read_message_streaming_n-SameReply lib laws ebs pver bsvnet handlers s hdr rest e v whole h =
    rw (e, v)
      (act-SameReply _ _ handlers (without_payloads handlers) hdr message_header_size rest _ h
        (without_payloads-none handlers hdr.command h)
        (λ t. taken-SameReply lib laws ebs pver hdr t message_header_size rest whole))
