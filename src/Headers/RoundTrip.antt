-- ===== src/Headers/RoundTrip.antt =====
-- What the headers message reads and writes.
use go_wire.Prelude.{ℕ, ◌≡◌, ◌++◌, List}
use go_wire.Headers.{IsHeaderList, headers_bsv_encode, MsgHeaders, headers_bsv_decode}
use go_wire.Headers.Transfer.{headers_bsv_decode-IsCodec}
use go_wire.Io.{IsInput, written, ok}
use go_wire.Io.Codec.{IsCodec-taken}
use go_wire.Io.Reads.{RoundTrips}

-- A headers message with at most 2000 headers whose fields fit is encoded without an error, and
-- its encoding, followed by anything, decodes to it and leaves what follows.
pub headers_bsv_decode-headers_bsv_encode :
    (msg : MsgHeaders)
    → IsHeaderList msg.headers
    → RoundTrips (headers_bsv_encode msg) headers_bsv_decode msg
headers_bsv_decode-headers_bsv_encode msg h = headers_bsv_decode-IsCodec.reads_back msg h

-- If an input of bytes, shorter than 2 ^ 63, decodes to a headers message, then it begins with
-- the encoding of the message, followed by what is left, and the message is within the bounds of
-- the decoder.
pub headers_bsv_encode-headers_bsv_decode :
    (s : List ℕ) (msg : MsgHeaders) (rest : List ℕ)
    → IsInput s
    → headers_bsv_decode s ≡ ok msg rest
    → (s ≡ written (headers_bsv_encode msg) ++ rest) × (IsHeaderList msg.headers)
headers_bsv_encode-headers_bsv_decode = IsCodec-taken headers_bsv_decode-IsCodec
