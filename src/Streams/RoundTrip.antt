-- ===== src/Streams/RoundTrip.antt =====
-- What the messages of streams read and write.
use go_wire.Prelude.{List, ◌<◌, ◌≡◌, ◌++◌, ◌^◌, ℕ}
use go_wire.Element.{bool, write_elements, uint64_kind}
use go_wire.Element.Transfer.{RoundTrips-element}
use go_wire.Io.{IsInput, written, ok}
use go_wire.Io.Codec.{IsCodec-taken}
use go_wire.Io.Reads.{RoundTrips, RoundTrips-bind, RoundTrips-pure}
use go_wire.Streams.{
  send_cmpct_bsv_encode, create_stream_bsv_encode, MsgSendcmpct, IsCreateStream,
  send_cmpct_bsv_decode, MsgCreateStream, IsStreamAck, stream_ack_bsv_decode, MsgStreamAck,
  stream_ack_bsv_encode, create_stream_bsv_decode,
}
use go_wire.Streams.Transfer.{stream_ack_bsv_decode-IsCodec, create_stream_bsv_decode-IsCodec}

-- A streamack message with an association ID of at most 129 bytes and a stream type of 8 bits is
-- encoded without an error, and its encoding, followed by anything, decodes to it and leaves what
-- follows.
pub stream_ack_bsv_decode-stream_ack_bsv_encode :
    (msg : MsgStreamAck)
    → IsStreamAck msg
    → RoundTrips (stream_ack_bsv_encode msg) stream_ack_bsv_decode msg
stream_ack_bsv_decode-stream_ack_bsv_encode msg h = stream_ack_bsv_decode-IsCodec.reads_back msg h

-- If an input of bytes, shorter than 2 ^ 63, decodes to a createstream message, then it begins with
-- the encoding of the message, followed by what is left, and the message is within the bounds of the
-- decoder.
pub create_stream_bsv_encode-create_stream_bsv_decode :
    (ebs : ℕ) (s : List ℕ) (msg : MsgCreateStream) (rest : List ℕ)
    → IsInput s
    → create_stream_bsv_decode ebs s ≡ ok msg rest
    → (s ≡ written (create_stream_bsv_encode msg) ++ rest) × IsCreateStream ebs msg
create_stream_bsv_encode-create_stream_bsv_decode ebs =
    IsCodec-taken (create_stream_bsv_decode-IsCodec ebs)

-- A createstream message within the decoder's bounds, with an association ID of 1 to 129 bytes, is
-- encoded without an error, and its encoding, followed by anything, decodes to it and leaves what
-- follows.
pub create_stream_bsv_decode-create_stream_bsv_encode :
    (ebs : ℕ) (msg : MsgCreateStream)
    → IsCreateStream ebs msg
    → RoundTrips (create_stream_bsv_encode msg) (create_stream_bsv_decode ebs) msg
create_stream_bsv_decode-create_stream_bsv_encode ebs msg h =
    (create_stream_bsv_decode-IsCodec ebs).reads_back msg h

pub send_cmpct_bsv_decode-send_cmpct_bsv_encode :
    (msg : MsgSendcmpct)
    → msg.version < 2 ^ 64
    → RoundTrips (send_cmpct_bsv_encode msg) send_cmpct_bsv_decode msg
unfolding send_cmpct_bsv_decode send_cmpct_bsv_encode write_elements
send_cmpct_bsv_decode-send_cmpct_bsv_encode msg h =
    RoundTrips-bind _ (RoundTrips-element bool msg.send_cmpct tt)
      (RoundTrips-bind _ (RoundTrips-element uint64_kind msg.version h) (RoundTrips-pure _))
