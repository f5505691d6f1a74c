-- ===== src/Inventory/RoundTrip.antt =====
-- What inventory messages read and write.
use go_wire.Prelude.{ℕ, List, ◌++◌, ◌≡◌}
use go_wire.Inventory.{
  get_data_bsv_decode, MsgGetData, inv_bsv_decode, MsgInv, MsgNotFound, not_found_bsv_decode,
  IsInvList, get_data_bsv_encode, inv_bsv_encode, not_found_bsv_encode,
}
use go_wire.Inventory.Transfer.{
  not_found_bsv_decode-IsCodec, get_data_bsv_decode-IsCodec, inv_bsv_decode-IsCodec,
}
use go_wire.Io.{IsInput, written, ok}
use go_wire.Io.Codec.{IsCodec-taken}
use go_wire.Io.Reads.{RoundTrips}

-- An inv message with at most 50000 vectors, each with a 32-bit type and a hash of 32 bytes, is
-- encoded without an error, and its encoding, followed by anything, decodes to it and leaves
-- what follows.
pub inv_bsv_decode-inv_bsv_encode :
    (msg : MsgInv) → IsInvList msg.inv_list → RoundTrips (inv_bsv_encode msg) inv_bsv_decode msg
inv_bsv_decode-inv_bsv_encode msg h = inv_bsv_decode-IsCodec.reads_back msg h

-- If an input of bytes, shorter than 2 ^ 63, decodes to an inv message, then it begins with the
-- encoding of the message, followed by what is left, and the message is within the bounds of the
-- decoder.
pub inv_bsv_encode-inv_bsv_decode :
    (s : List ℕ) (msg : MsgInv) (rest : List ℕ)
    → IsInput s
    → inv_bsv_decode s ≡ ok msg rest
    → (s ≡ written (inv_bsv_encode msg) ++ rest) × (IsInvList msg.inv_list)
inv_bsv_encode-inv_bsv_decode = IsCodec-taken inv_bsv_decode-IsCodec

-- A getdata message with at most 50000 vectors, each with a 32-bit type and a hash of 32 bytes,
-- is encoded without an error, and its encoding, followed by anything, decodes to it and leaves
-- what follows.
pub get_data_bsv_decode-get_data_bsv_encode :
    (msg : MsgGetData)
    → IsInvList msg.inv_list
    → RoundTrips (get_data_bsv_encode msg) get_data_bsv_decode msg
get_data_bsv_decode-get_data_bsv_encode msg h = get_data_bsv_decode-IsCodec.reads_back msg h

-- A notfound message with at most 50000 vectors, each with a 32-bit type and a hash of 32 bytes,
-- is encoded without an error, and its encoding, followed by anything, decodes to it and leaves
-- what follows.
pub not_found_bsv_decode-not_found_bsv_encode :
    (msg : MsgNotFound)
    → IsInvList msg.inv_list
    → RoundTrips (not_found_bsv_encode msg) not_found_bsv_decode msg
not_found_bsv_decode-not_found_bsv_encode msg h = not_found_bsv_decode-IsCodec.reads_back msg h
