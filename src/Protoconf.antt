-- ===== src/Protoconf.antt =====
-- msg_proto_conf.go: the largest payload that a peer receives and the policies of its streams. The
-- integers of variable length are those of github.com/bsv-blockchain/go-bt: `vi_read` stands for
-- VarInt.ReadFrom and `vi_bytes` for VarInt.Bytes.
pub mod RoundTrip
use go_wire.Prelude.{
  ◌==◌, ◌^◌, ◌≤◌, ltb, ◌≡◌, ◌<◌, ℕ, if◌then◌else◌, Bool, ◌++◌, length, ◌*◌, [], false, All, ◌∷◌,
  List,
}
use go_wire.Binary.{little, uint32, put_uint32}
use go_wire.Empty.{protoconf_version}
use go_wire.Io.{
  pure, write, Put, ◌>>◌, refuse_if, message_error, Read, ◌▸◌, read_full, refuse_put, ◌>>=◌,
}
use go_wire.Limits.{max_message_payload}

abbrev pub comma : ℕ
comma = 0x2c

-- "Default" and "BlockPriority"
abbrev pub default_stream_policy : List ℕ
default_stream_policy = 0x44 ∷ 0x65 ∷ 0x66 ∷ 0x61 ∷ 0x75 ∷ 0x6c ∷ 0x74 ∷ []

abbrev pub block_priority_stream_policy : List ℕ
block_priority_stream_policy =
    0x42 ∷ 0x6c ∷ 0x6f ∷ 0x63 ∷ 0x6b ∷ 0x50 ∷ 0x72 ∷ 0x69 ∷ 0x6f ∷ 0x72 ∷ 0x69 ∷ 0x74 ∷ 0x79 ∷ []

abbrev pub max_protoconf_payload : ℕ
max_protoconf_payload = 1024 * 1024

abbrev pub default_max_recv_payload_length : ℕ
default_max_recv_payload_length = 2 * 1024 * 1024

pub record MsgProtoconf : Type 0 where
  pub number_of_fields : ℕ
  pub max_recv_payload_length : ℕ
  pub stream_policies : List (List ℕ)

unfoldable pub new_msg_protoconf : ℕ → Bool → MsgProtoconf
new_msg_protoconf n allow_block_priority = record {
  number_of_fields = 2;
  max_recv_payload_length = if ltb 0 n then n else default_max_recv_payload_length;
  stream_policies =
      (if allow_block_priority then block_priority_stream_policy ∷ [] else [])
      ++ (default_stream_policy ∷ []);
}

-- a byte before the first of the strings
unfoldable pub prepend : ℕ → List (List ℕ) → List (List ℕ)
prepend b [] = (b ∷ []) ∷ []
prepend b (w ∷ ws) = (b ∷ w) ∷ ws

-- `strings.Split(s, ",")` and `strings.Join(ws, ",")`
unfoldable pub split : List ℕ → List (List ℕ)
split [] = [] ∷ []
split (b ∷ s) = let rest = split s in if b == comma then [] ∷ rest else prepend b rest

unfoldable pub join : List (List ℕ) → List ℕ
join [] = []
join (w ∷ []) = w
join (w ∷ v ∷ ws) = w ++ (comma ∷ join (v ∷ ws))

unfoldable pub read_max_recv : ℕ → Read ℕ
read_max_recv fields = if ltb 0 fields then uint32 little else pure 0

unfoldable pub read_stream_policies : Read ℕ → ℕ → ℕ → Read (List (List ℕ))
read_stream_policies vi_read ebs fields =
    if ltb 1 fields
    then (do
      n ← vi_read
      refuse_if (ltb (max_message_payload ebs) n) (message_error "MsgProtoconf.Bsvdecode")
      b ← read_full n
      pure (split b))
    else pure []

-- The receiver is a new message.
unfoldable pub protoconf_bsv_decode : Read ℕ → ℕ → ℕ → Read MsgProtoconf
protoconf_bsv_decode vi_read ebs pver = do
  refuse_if (ltb pver protoconf_version) (message_error "MsgProtoconf.Bsvdecode")
  fields ← vi_read
  n ← read_max_recv fields
  policies ← read_stream_policies vi_read ebs fields
  pure (record {
    number_of_fields = fields;
    max_recv_payload_length = n;
    stream_policies = policies;
  })

unfoldable pub protoconf_bsv_encode : (ℕ → List ℕ) → ℕ → MsgProtoconf → Put
protoconf_bsv_encode vi_bytes pver msg =
    refuse_put (ltb pver protoconf_version) (message_error "MsgProtoconf.BsvEncode") (
      write (vi_bytes msg.number_of_fields)
      ▸ put_uint32 little msg.max_recv_payload_length
      ▸ write (vi_bytes (length (join msg.stream_policies)))
      ▸ write (join msg.stream_policies))

-- A policy that Split gives back.
abbrev pub HasNoComma : List ℕ → Type 0
HasNoComma w = All (λ b. (b == comma) ≡ false) w

-- At least the two fields that are sent, and one policy or more, none of them with a comma.
pub record IsProtoconf (ebs : ℕ) (msg : MsgProtoconf) : Type 0 where
  pub fields : 2 ≤ msg.number_of_fields
  pub fields_fit : msg.number_of_fields < 2 ^ 64
  pub max_recv_payload_length : msg.max_recv_payload_length < 2 ^ 32
  pub some_policy : 0 < length msg.stream_policies
  pub policies : All HasNoComma msg.stream_policies
  pub joined : length (join msg.stream_policies) ≤ max_message_payload ebs
