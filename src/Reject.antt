-- ===== src/Reject.antt =====
-- msg_reject.go: the refusal of a message, with the hash of a block or a transaction alone.
pub mod RoundTrip
use go_wire.Prelude.{
  ◌||◌, ◌≤◌, [], ℕ, ltb, false, List, length, true, ◌^◌, ◌∷◌, ◌<◌, leb, ◌≡◌, Bool, replicate,
  if◌then◌else◌,
}
use go_wire.Element.{hash, reject_code, read_element, Fits, write_element}
use go_wire.Io.{done, ◌▸◌, Read, ◌>>◌, pure, message_error, refuse_put, refuse_if, ◌>>=◌, Put}
use go_wire.Limits.{max_message_payload}
use go_wire.MessageHeader.{same_bytes}
use go_wire.VarBytes.{read_var_string, write_var_string}

abbrev pub reject_version : ℕ
reject_version = 70002

-- "block", "tx" and "exttx"
abbrev pub block_command : List ℕ
block_command = 0x62 ∷ 0x6c ∷ 0x6f ∷ 0x63 ∷ 0x6b ∷ []

abbrev pub tx_command : List ℕ
tx_command = 0x74 ∷ 0x78 ∷ []

abbrev pub extended_tx_command : List ℕ
extended_tx_command = 0x65 ∷ 0x78 ∷ 0x74 ∷ 0x74 ∷ 0x78 ∷ []

pub record MsgReject : Type 0 where
  pub cmd : List ℕ
  pub code : ℕ
  pub reason : List ℕ
  pub hash_bytes : List ℕ

unfoldable pub has_hash : List ℕ → Bool
has_hash cmd =
    same_bytes cmd block_command
    || (same_bytes cmd tx_command || same_bytes cmd extended_tx_command)

-- The hash of a new message is zeros.
unfoldable pub read_reject_hash : Bool → Read (List ℕ)
read_reject_hash b = if b then read_element hash else pure (replicate 32 0)

unfoldable pub reject_bsv_decode : ℕ → ℕ → Read MsgReject
reject_bsv_decode ebs pver = do
  refuse_if (ltb pver reject_version) (message_error "MsgReject.Bsvdecode")
  cmd ← read_var_string ebs
  code ← read_element reject_code
  reason ← read_var_string ebs
  h ← read_reject_hash (has_hash cmd)
  pure (record { cmd = cmd; code = code; reason = reason; hash_bytes = h })

unfoldable pub write_reject_hash : Bool → List ℕ → Put
write_reject_hash b h = if b then write_element hash h else done []

unfoldable pub reject_bsv_encode : ℕ → MsgReject → Put
reject_bsv_encode pver msg =
    refuse_put (ltb pver reject_version) (message_error "MsgReject.BsvEncode") (
      write_var_string msg.cmd
      ▸ write_element reject_code msg.code
      ▸ write_var_string msg.reason
      ▸ write_reject_hash (has_hash msg.cmd) msg.hash_bytes)

unfoldable pub reject_max_payload_length : ℕ → ℕ → ℕ
reject_max_payload_length ebs pver = if leb reject_version pver then max_message_payload ebs else 0

unfoldable pub new_msg_reject : List ℕ → ℕ → List ℕ → MsgReject
new_msg_reject command_bytes code reason = record {
  cmd = command_bytes;
  code = code;
  reason = reason;
  hash_bytes = replicate 32 0;
}

-- A hash that is sent has 32 bytes; one that is not is zeros.
abbrev pub IsRejectHash : Bool → List ℕ → Type 0
IsRejectHash true h = Fits hash h
IsRejectHash false h = h ≡ replicate 32 0

pub record IsReject (ebs : ℕ) (msg : MsgReject) : Type 0 where
  pub short_cmd : length msg.cmd < 2 ^ 63
  pub cmd : length msg.cmd ≤ max_message_payload ebs
  pub code : msg.code < 2 ^ 8
  pub short_reason : length msg.reason < 2 ^ 63
  pub reason : length msg.reason ≤ max_message_payload ebs
  pub hash_bytes : IsRejectHash (has_hash msg.cmd) msg.hash_bytes
