-- ===== src/Locator/RoundTrip.antt =====
-- What the requests with locator hashes read and write.
use go_wire.Prelude.{List, ℕ, ◌++◌, ◌≡◌}
use go_wire.Io.{written, IsInput, ok}
use go_wire.Io.Codec.{IsCodec-taken}
use go_wire.Io.Reads.{RoundTrips}
use go_wire.Locator.{
  get_blocks_bsv_encode, get_headers_bsv_encode, MsgGetHeaders, IsLocator, MsgGetBlocks,
  get_headers_bsv_decode, get_blocks_bsv_decode,
}
use go_wire.Locator.Transfer.{get_blocks_bsv_decode-IsCodec, get_headers_bsv_decode-IsCodec}

-- A getblocks message with a 32-bit version, at most 500 locator hashes and a stop hash, of 32
-- bytes each, is encoded without an error, and its encoding, followed by anything, decodes to it
-- and leaves what follows.
pub get_blocks_bsv_decode-get_blocks_bsv_encode :
    (msg : MsgGetBlocks)
    → IsLocator msg.protocol_version msg.block_locator_hashes msg.hash_stop
    → RoundTrips (get_blocks_bsv_encode msg) get_blocks_bsv_decode msg
get_blocks_bsv_decode-get_blocks_bsv_encode msg h = get_blocks_bsv_decode-IsCodec.reads_back msg h

-- A getheaders message with a 32-bit version, at most 500 locator hashes and a stop hash, of 32
-- bytes each, is encoded without an error, and its encoding, followed by anything, decodes to it
-- and leaves what follows.
pub get_headers_bsv_decode-get_headers_bsv_encode :
    (msg : MsgGetHeaders)
    → IsLocator msg.protocol_version msg.block_locator_hashes msg.hash_stop
    → RoundTrips (get_headers_bsv_encode msg) get_headers_bsv_decode msg
get_headers_bsv_decode-get_headers_bsv_encode msg h =
    get_headers_bsv_decode-IsCodec.reads_back msg h

-- If an input of bytes, shorter than 2 ^ 63, decodes to a getheaders message, then it begins
-- with the encoding of the message, followed by what is left, and the message is within the
-- bounds of the decoder.
pub get_headers_bsv_encode-get_headers_bsv_decode :
    (s : List ℕ) (msg : MsgGetHeaders) (rest : List ℕ)
    → IsInput s
    → get_headers_bsv_decode s ≡ ok msg rest
    → (s ≡ written (get_headers_bsv_encode msg) ++ rest)
      × (IsLocator msg.protocol_version msg.block_locator_hashes msg.hash_stop)
get_headers_bsv_encode-get_headers_bsv_decode = IsCodec-taken get_headers_bsv_decode-IsCodec
