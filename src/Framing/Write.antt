-- ===== src/Framing/Write.antt =====
-- message.go: WriteMessageWithEncodingN, and WriteMessageN and WriteMessage, which call it. The
-- writer is a buffer, and the number of bytes written is the length of what it holds.
use go_wire.Prelude.{[], if◌then◌else◌, Bool, ltb, ◌%◌, List, ◌^◌, take, ℕ, length, leb, ◌||◌}
use go_wire.Io.{refused, ◌▸◌, Put, refuse_put, done, message_error, write}
use go_wire.Limits.{max_message_payload}
use go_wire.Message.{max_payload_length, command_of}
use go_wire.Message.Coding.{bsv_encode, Packages}
use go_wire.Message.Types.{Message, MessageType}
use go_wire.MessageHeader.{write_message_header, command_size, MessageHeader}

abbrev pub max_uint32 : ℕ
max_uint32 = 0xffff_ffff

-- `lenp > int(limit)`: a limit of 2 ^ 63 or more is negative as an int
unfoldable pub exceeds_int : ℕ → ℕ → Bool
exceeds_int lenp limit = leb (2 ^ 63) limit || ltb limit lenp

-- The command is copied into its array by `write_message_header`. The extended length is not sent.
unfoldable pub header_for : Packages → ℕ → List ℕ → List ℕ → MessageHeader
header_for lib bsvnet cmd payload = record {
  magic = bsvnet;
  command = cmd;
  length =
      if leb max_uint32 (length payload % 2 ^ 32) then 0xffff_ffff else length payload % 2 ^ 32;
  checksum = take 4 (lib.double_hash_b payload);
  ext_length = if leb max_uint32 (length payload % 2 ^ 32) then length payload else 0;
}

-- The rest of the body, from the encoded payload on. Over 2 ^ 32 - 1 bytes the error that is
-- returned is that of the encoding, which is nil.
unfoldable pub write_payload : Packages → ℕ → ℕ → ℕ → MessageType → List ℕ → Put
write_payload lib ebs pver bsvnet t payload =
    refuse_put (exceeds_int (length payload) (max_message_payload ebs))
      (message_error "WriteMessage")
      (refuse_put (ltb (max_payload_length ebs pver t) (length payload))
        (message_error "WriteMessage")
        (if ltb max_uint32 (length payload)
          then done []
          else write_message_header (header_for lib bsvnet (command_of t) payload) ▸ write payload))

-- `bw.Bytes()`, or the error of the encoding; what it has written until then is dropped
unfoldable pub with_payload : Put → (List ℕ → Put) → Put
with_payload (done payload) k = k payload
with_payload (refused e bs) k = refused e []

unfoldable pub write_message : Packages → ℕ → ℕ → ℕ → Message → Put
write_message lib ebs pver bsvnet msg =
    refuse_put (ltb command_size (length (command_of msg.type_of))) (message_error "WriteMessage") (
      with_payload (bsv_encode lib ebs pver msg.type_of msg.payload)
        (write_payload lib ebs pver bsvnet msg.type_of))
