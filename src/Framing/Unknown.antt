-- ===== src/Framing/Unknown.antt =====
-- CmdGetCFHeaders has no case in makeEmptyMessage.
use go_wire.Prelude.{
  none, ℕ, Bool, false, ap, true, refl, List, if◌then◌else◌, ◌≡◌, not, ◌&&◌, ◌==◌,
}
use go_wire.Framing.Receive.{
  read_error, check_type, without_payloads, inspect, read_message_n, accept, after_header, failed,
  refuse, Handlers, skip, Reply, read_message_streaming_n, Verdict, act, too_large,
}
use go_wire.Framing.Utf8.{valid_string}
use go_wire.Io.{ok}
use go_wire.Limits.{max_message_payload}
use go_wire.Message.{make_empty_message, command_of, switch}
use go_wire.Message.Coding.{Packages}
use go_wire.Message.Commands.{cmd_version}
use go_wire.Message.Types.{msg_get_cfheaders, MessageType}
use go_wire.MessageHeader.{same_bytes, message_header_size, MessageHeader, read_message_header}

abbrev IsError : Verdict → Type 0
IsError (refuse e) = e ≡ read_error
IsError (skip e) = e ≡ read_error
IsError (accept t) = ⊥

inspect-unknown :
    (streaming : Bool) (ebs pver bsvnet : ℕ) (hdr : MessageHeader)
    → make_empty_message hdr.command ≡ none
    → IsError (inspect streaming ebs pver bsvnet hdr)
unfolding inspect check_type
inspect-unknown streaming ebs pver bsvnet hdr h = rw h (
    go (too_large (max_message_payload ebs) hdr) (not (hdr.magic == bsvnet))
      (not (valid_string hdr.command)) (streaming && same_bytes hdr.command cmd_version))
  where
    go :
        (a b c d : Bool)
        → IsError (
            if a
            then refuse read_error
            else if b
            then skip read_error
            else if c
            then skip read_error
            else if d
            then skip read_error
            else skip read_error)
    go true b c d = refl
    go false true c d = refl
    go false false true d = refl
    go false false false true = refl
    go false false false false = refl

act-IsError :
    (get : MessageType → ℕ → List ℕ → Reply) (handlers : Handlers) (hdr : MessageHeader) (n : ℕ)
    (s : List ℕ) (v : Verdict)
    → IsError v
    → (act get handlers hdr n s v).result ≡ failed read_error
unfolding act
act-IsError get handlers hdr n s (refuse e) h = ap failed h
act-IsError get handlers hdr n s (skip e) h = ap failed h
act-IsError get handlers hdr n s (accept t) h = absurd h

-- Both readers fail with a MessageError of ReadMessage on every stream that begins with the header of
-- a getcfheaders message, whatever its payload and whatever handlers are registered.
pub read_message_n-get_cfheaders :
    (lib : Packages) (ebs pver bsvnet : ℕ) (handlers : Handlers) (s : List ℕ) (hdr : MessageHeader)
    (rest : List ℕ)
    → read_message_header s ≡ ok hdr rest
    → hdr.command ≡ command_of msg_get_cfheaders
    → ((read_message_n lib ebs pver bsvnet handlers s).result ≡ failed read_error)
      × ((read_message_streaming_n lib ebs pver bsvnet handlers s).result ≡ failed read_error)
unfolding read_message_n read_message_streaming_n after_header make_empty_message switch command_of
    same_bytes
read_message_n-get_cfheaders lib ebs pver bsvnet handlers s hdr rest e c =
    let unknown : make_empty_message hdr.command ≡ none = rw c refl in
    (
      rw e (
          act-IsError _ handlers hdr message_header_size rest _
            (inspect-unknown false ebs pver bsvnet hdr unknown)),
      rw e (
          act-IsError _ (without_payloads handlers) hdr message_header_size rest _
            (inspect-unknown true ebs pver bsvnet hdr unknown)),
    )
