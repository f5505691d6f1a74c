-- ===== src/Ping/RoundTrip.antt =====
-- What the messages of one number read and write.
use go_wire.Prelude.{◌^◌, false, ℕ, ◌<◌, leb, ltb, ◌≡◌}
use go_wire.Io.Reads.{RoundTrips}
use go_wire.Ping.{
  bip0031_version, ping_bsv_decode, MsgPong, IsPing, MsgPing, pong_bsv_decode, pong_bsv_encode,
  ping_bsv_encode, fee_filter_bsv_encode, MsgFeeFilter, fee_filter_bsv_decode, fee_filter_version,
}
use go_wire.Ping.Transfer.{
  ping_bsv_decode-IsCodec, pong_bsv_decode-IsCodec, fee_filter_bsv_decode-IsCodec,
}

-- A ping message with a 64-bit nonce, in a version after BIP0031, or with the nonce 0, in an
-- earlier one, is encoded without an error, and its encoding, followed by anything, decodes to
-- it and leaves what follows.
pub ping_bsv_decode-ping_bsv_encode :
    (pver : ℕ) (msg : MsgPing)
    → IsPing pver msg
    → RoundTrips (ping_bsv_encode pver msg) (ping_bsv_decode pver) msg
ping_bsv_decode-ping_bsv_encode pver msg h = (ping_bsv_decode-IsCodec pver).reads_back msg h

-- A pong message with a 64-bit nonce, in a version after BIP0031, is encoded without an error,
-- and its encoding, followed by anything, decodes to it and leaves what follows.
pub pong_bsv_decode-pong_bsv_encode :
    (pver : ℕ) (msg : MsgPong)
    → (leb pver bip0031_version ≡ false) × (msg.nonce < 2 ^ 64)
    → RoundTrips (pong_bsv_encode pver msg) (pong_bsv_decode pver) msg
pong_bsv_decode-pong_bsv_encode pver msg h = (pong_bsv_decode-IsCodec pver).reads_back msg h

-- A feefilter message with a 64-bit fee, in a version from FeeFilterVersion on, is encoded
-- without an error, and its encoding, followed by anything, decodes to it and leaves what
-- follows.
pub fee_filter_bsv_decode-fee_filter_bsv_encode :
    (pver : ℕ) (msg : MsgFeeFilter)
    → (ltb pver fee_filter_version ≡ false) × (msg.min_fee < 2 ^ 64)
    → RoundTrips (fee_filter_bsv_encode pver msg) (fee_filter_bsv_decode pver) msg
fee_filter_bsv_decode-fee_filter_bsv_encode pver msg h =
    (fee_filter_bsv_decode-IsCodec pver).reads_back msg h
