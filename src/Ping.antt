-- ===== src/Ping.antt =====
-- msg_ping.go, msg_pong.go and msg_fee_filter.go: one number, or none, by the protocol version.
pub mod Transfer
pub mod RoundTrip
use go_wire.Prelude.{◌≡◌, ltb, [], ◌^◌, ◌<◌, if◌then◌else◌, leb, ℕ}
use go_wire.Element.{read_element, write_element, uint64_kind, int64}
use go_wire.Io.{◌>>=◌, Put, message_error, done, Read, refuse_put, refuse_if, ◌>>◌, pure}

abbrev pub bip0031_version : ℕ
bip0031_version = 60000

abbrev pub fee_filter_version : ℕ
fee_filter_version = 70013

pub record MsgPing : Type 0 where
  pub nonce : ℕ

-- The receiver is a new message, whose nonce is 0.
unfoldable pub ping_bsv_decode : ℕ → Read MsgPing
ping_bsv_decode pver =
    if ltb bip0031_version pver
    then (do n ← read_element uint64_kind; pure (record { nonce = n }))
    else pure (record { nonce = 0 })

unfoldable pub ping_bsv_encode : ℕ → MsgPing → Put
ping_bsv_encode pver msg =
    if ltb bip0031_version pver then write_element uint64_kind msg.nonce else done []

unfoldable pub ping_max_payload_length : ℕ → ℕ
ping_max_payload_length pver = if ltb bip0031_version pver then 8 else 0

pub record MsgPong : Type 0 where
  pub nonce : ℕ

unfoldable pub pong_bsv_decode : ℕ → Read MsgPong
pong_bsv_decode pver = do
  refuse_if (leb pver bip0031_version) (message_error "MsgPong.Bsvdecode")
  n ← read_element uint64_kind
  pure (record { nonce = n })

unfoldable pub pong_bsv_encode : ℕ → MsgPong → Put
pong_bsv_encode pver msg =
    refuse_put (leb pver bip0031_version) (message_error "MsgPong.BsvEncode")
      (write_element uint64_kind msg.nonce)

pub record MsgFeeFilter : Type 0 where
  pub min_fee : ℕ

unfoldable pub fee_filter_bsv_decode : ℕ → Read MsgFeeFilter
fee_filter_bsv_decode pver = do
  refuse_if (ltb pver fee_filter_version) (message_error "MsgFeeFilter.Bsvdecode")
  n ← read_element int64
  pure (record { min_fee = n })

unfoldable pub fee_filter_bsv_encode : ℕ → MsgFeeFilter → Put
fee_filter_bsv_encode pver msg =
    refuse_put (ltb pver fee_filter_version) (message_error "MsgFeeFilter.BsvEncode")
      (write_element int64 msg.min_fee)

-- A nonce that a ping of the version keeps: below BIP0031 none is sent, and 0 is received.
abbrev pub IsPing : ℕ → MsgPing → Type 0
IsPing pver msg = if ltb bip0031_version pver then (msg.nonce < 2 ^ 64) else (msg.nonce ≡ 0)
