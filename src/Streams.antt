-- ===== src/Streams.antt =====
-- msg_create_stream.go, msg_stream_ack.go, stream_type.go and msg_send_cmpct.go: the messages that
-- open a stream of an association, and the choice of compact blocks. A StreamType is a byte.
pub mod Transfer
pub mod RoundTrip
use go_wire.Prelude.{All, ◌^◌, List, [], ℕ, length, ◌≡◌, ◌<◌, false, ◌∷◌, ltb, ◌≤◌, Bool, ◌==◌}
use go_wire.Element.{bool, read_element, write_element, uint64_kind, write_elements, uint8_kind}
use go_wire.Io.{Read, IsByte, Put, ◌>>=◌, pure, refuse_put, refuse_if, ◌>>◌, ◌▸◌, message_error}
use go_wire.Limits.{max_message_payload}
use go_wire.VarBytes.{write_var_bytes, read_var_bytes, write_var_string, read_var_string}

abbrev pub max_association_id_len : ℕ
max_association_id_len = 129

pub record MsgStreamAck : Type 0 where
  pub association_id : List ℕ
  pub stream_type : ℕ

unfoldable pub stream_ack_bsv_decode : Read MsgStreamAck
stream_ack_bsv_decode = do
  bs ← read_var_bytes max_association_id_len
  t ← read_element uint8_kind
  pure (record { association_id = bs; stream_type = t })

-- The encoder has no bound on the association ID.
unfoldable pub stream_ack_bsv_encode : MsgStreamAck → Put
stream_ack_bsv_encode msg =
    write_var_bytes msg.association_id ▸ write_element uint8_kind msg.stream_type

pub record MsgCreateStream : Type 0 where
  pub association_id : List ℕ
  pub stream_type : ℕ
  pub stream_policy_name : List ℕ

unfoldable pub create_stream_bsv_decode : ℕ → Read MsgCreateStream
create_stream_bsv_decode ebs = do
  bs ← read_var_bytes max_association_id_len
  refuse_if (length bs == 0) (message_error "MsgCreateStream.Bsvdecode")
  t ← read_element uint8_kind
  name ← read_var_string ebs
  pure (record { association_id = bs; stream_type = t; stream_policy_name = name })

unfoldable pub create_stream_bsv_encode : MsgCreateStream → Put
create_stream_bsv_encode msg =
    refuse_put (length msg.association_id == 0) (message_error "MsgCreateStream.BsvEncode") (
      refuse_put (ltb max_association_id_len (length msg.association_id))
        (message_error "MsgCreateStream.BsvEncode")
        (write_var_bytes msg.association_id
          ▸ write_element uint8_kind msg.stream_type
          ▸ write_var_string msg.stream_policy_name))

pub record MsgSendcmpct : Type 0 where
  pub send_cmpct : Bool
  pub version : ℕ

unfoldable pub send_cmpct_bsv_decode : Read MsgSendcmpct
send_cmpct_bsv_decode = do
  b ← read_element bool
  v ← read_element uint64_kind
  pure (record { send_cmpct = b; version = v })

unfoldable pub send_cmpct_bsv_encode : MsgSendcmpct → Put
send_cmpct_bsv_encode msg =
    write_elements (bool ∷ uint64_kind ∷ []) (msg.send_cmpct, (msg.version, tt))

-- The messages that decode.
abbrev pub IsStreamAck : MsgStreamAck → Type 0
IsStreamAck msg =
    ((length msg.association_id ≤ max_association_id_len) × All IsByte msg.association_id)
    × (msg.stream_type < 2 ^ 8)

pub record IsCreateStream (ebs : ℕ) (msg : MsgCreateStream) : Type 0 where
  pub some_id : (length msg.association_id == 0) ≡ false
  pub id : (length msg.association_id ≤ max_association_id_len) × All IsByte msg.association_id
  pub stream_type : msg.stream_type < 2 ^ 8
  pub short_name : length msg.stream_policy_name < 2 ^ 63
  pub name : length msg.stream_policy_name ≤ max_message_payload ebs
