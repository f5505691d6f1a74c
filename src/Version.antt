-- ===== src/Version.antt =====
-- msg_version.go: the message that opens a connection. Its decoder reads a buffer to its end, and
-- the fields that later versions of the protocol added are read while bytes are left.
pub mod ToEnd
pub mod RoundTrip
use go_wire.Prelude.{
  [], if◌then◌else◌, false, Bool, not, ◌^◌, ◌*◌, none, ltb, ◌<◌, leb, some, length, ℕ, Option, ◌+◌,
  ◌∷◌, List, ◌≤◌,
}
use go_wire.Element.{
  bool, int32, int64_time, service_flag, Kind, AllFit, write_element, read_elements, read_element,
  write_elements, uint64_kind,
}
use go_wire.FilterMessages.{bip0037_version}
use go_wire.Io.{
  ◌>>=◌, refuse_if, refuse_put, Put, ◌>>◌, done, pure, Read, ◌▸◌, Error, message_error,
}
use go_wire.Limits.{max_var_int_payload, max_message_payload}
use go_wire.NetAddress.{
  max_net_address_payload, zero_time, read_net_address, IsNetAddress, write_net_address, NetAddress,
}
use go_wire.Streams.{max_association_id_len}
use go_wire.VarBytes.{write_var_string, write_var_bytes, read_var_string, read_var_bytes}

abbrev pub max_user_agent_len : ℕ
max_user_agent_len = 256

-- An address is by its value; MsgVersion holds no other pointer.
pub record MsgVersion : Type 0 where
  pub protocol_version : ℕ
  pub services : ℕ
  pub timestamp : ℕ
  pub addr_you : NetAddress
  pub addr_me : NetAddress
  pub nonce : ℕ
  pub user_agent : List ℕ
  pub last_block : ℕ
  pub disable_relay_tx : Bool
  pub association_id : List ℕ

-- `if buf.Len() > 0 { … }`: the field keeps its value `old` where nothing is left.
unfoldable pub if_more {ℓ} : {A : Type ℓ} → Read A → A → Read A
if_more m old [] = pure old []
if_more m old (b ∷ s) = m (b ∷ s)

-- the address of a new message
abbrev pub zero_address : NetAddress
zero_address = record { timestamp = zero_time; services = 0; ip_bytes = []; port = 0 }

unfoldable pub validate_user_agent : List ℕ → Bool
validate_user_agent user_agent = ltb max_user_agent_len (length user_agent)

unfoldable pub read_user_agent : ℕ → Read (List ℕ)
read_user_agent ebs = do
  user_agent ← read_var_string ebs
  refuse_if (validate_user_agent user_agent) (message_error "MsgVersion")
  pure user_agent

unfoldable pub read_disable_relay : Read Bool
read_disable_relay = do relay ← read_element bool; pure (not relay)

abbrev pub version_kinds : List Kind
version_kinds = int32 ∷ service_flag ∷ int64_time ∷ []

unfoldable pub version_bsv_decode : ℕ → ℕ → Read MsgVersion
version_bsv_decode ebs pver = do
  (v, (s, (t, _))) ← read_elements version_kinds
  you ← read_net_address pver false
  me ← if_more (read_net_address pver false) zero_address
  n ← if_more (read_element uint64_kind) 0
  agent ← if_more (read_user_agent ebs) []
  last ← if_more (read_element int32) 0
  no_relay ← if_more read_disable_relay false
  association ← if_more (read_var_bytes max_association_id_len) []
  pure (record {
    protocol_version = v;
    services = s;
    timestamp = t;
    addr_you = you;
    addr_me = me;
    nonce = n;
    user_agent = agent;
    last_block = last;
    disable_relay_tx = no_relay;
    association_id = association;
  })

unfoldable pub write_relay : ℕ → Bool → Put
write_relay pver disabled =
    if leb bip0037_version pver then write_element bool (not disabled) else done []

unfoldable pub write_association : List ℕ → Put
write_association association =
    if ltb 0 (length association) then write_var_bytes association else done []

unfoldable pub version_bsv_encode : (List ℕ → List ℕ) → ℕ → MsgVersion → Put
version_bsv_encode to16 pver msg =
    refuse_put (validate_user_agent msg.user_agent) (message_error "MsgVersion") (
      write_elements version_kinds (msg.protocol_version, (msg.services, (msg.timestamp, tt)))
      ▸ write_net_address to16 pver msg.addr_you false
      ▸ write_net_address to16 pver msg.addr_me false
      ▸ write_element uint64_kind msg.nonce
      ▸ write_var_string msg.user_agent
      ▸ write_element int32 msg.last_block
      ▸ write_relay pver msg.disable_relay_tx
      ▸ write_association msg.association_id)

unfoldable pub version_max_payload_length : ℕ → ℕ
version_max_payload_length pver =
    33
    + max_net_address_payload pver * 2
    + max_var_int_payload
    + max_user_agent_len
    + max_var_int_payload
    + max_association_id_len

-- AddUserAgent for the new agent, which fmt.Sprintf and strings.Join give
unfoldable pub add_user_agent : List ℕ → MsgVersion → Option Error × MsgVersion
add_user_agent agent msg =
    if validate_user_agent agent
    then (some (message_error "MsgVersion"), msg)
    else (none, record msg { user_agent = agent })

-- A message whose fields fit, with an agent and an association within the bounds.
pub record IsVersion (ebs : ℕ) (msg : MsgVersion) : Type 0 where
  pub fields : AllFit version_kinds (msg.protocol_version, (msg.services, (msg.timestamp, tt)))
  pub you : IsNetAddress false msg.addr_you
  pub me : IsNetAddress false msg.addr_me
  pub nonce : msg.nonce < 2 ^ 64
  pub short_agent : length msg.user_agent ≤ max_user_agent_len
  pub agent : length msg.user_agent ≤ max_message_payload ebs
  pub last_block : msg.last_block < 2 ^ 32
  pub association : length msg.association_id ≤ max_association_id_len
