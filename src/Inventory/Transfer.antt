-- ===== src/Inventory/Transfer.antt =====
-- Inventory messages on the wire.
use go_wire.Prelude.{append-nil, arith, refl}
use go_wire.Counted.Transfer.{or_keep-Appends, or_fail-Appends, list_message-IsCodec}
use go_wire.Element.Transfer.{RoundTrips-elements, Takes-elements}
use go_wire.Inventory.{
  not_found_add_inv_vect, not_found_bsv_encode, read_inv_vect, not_found_bsv_decode, inv_bsv_decode,
  inv_vect_kinds, write_inv_vect, inv_add_inv_vect, inv_bsv_encode, IsInvList,
  get_data_add_inv_vect, get_data_bsv_decode, get_data_bsv_encode, max_inv_per_msg, IsInvVect,
}
use go_wire.Io.Codec.{IsCodec}
use go_wire.Io.Reads.{RoundTrips-last}
use go_wire.Io.Takes.{Takes-bind, Takes-pure}

pub read_inv_vect-IsCodec : IsCodec read_inv_vect write_inv_vect IsInvVect
unfolding read_inv_vect write_inv_vect
read_inv_vect-IsCodec = record {
  reads_back = λ iv h.
      RoundTrips-last _ (RoundTrips-elements inv_vect_kinds (iv.type, (iv.hash, tt)) h) (λ s. refl);
  takes =
      Takes-bind (Takes-elements inv_vect_kinds (tt, (tt, tt)))
        λ vs bs i q. Takes-pure (q.0, rw append-nil q.1);
}

-- MsgInv: a list of at most 50000 vectors, each with a 32-bit type and a hash of 32 bytes, is
-- encoded without an error and reads back, whatever follows; and from an input of bytes, shorter
-- than 2 ^ 63, only such a list is decoded, and what was read is its encoding.
pub inv_bsv_decode-IsCodec : IsCodec inv_bsv_decode inv_bsv_encode (λ msg. IsInvList msg.inv_list)
unfolding inv_bsv_decode inv_bsv_encode inv_add_inv_vect
inv_bsv_decode-IsCodec =
    list_message-IsCodec _ _ (λ l. record { inv_list = l }) (λ msg. msg.inv_list)
      (or_fail-Appends _ max_inv_per_msg) read_inv_vect-IsCodec (omega arith) (λ msg. refl)
      (λ l. refl)

-- MsgGetData: a list of at most 50000 vectors, each with a 32-bit type and a hash of 32 bytes, is
-- encoded without an error and reads back, whatever follows; and from an input of bytes, shorter
-- than 2 ^ 63, only such a list is decoded, and what was read is its encoding.
pub get_data_bsv_decode-IsCodec :
    IsCodec get_data_bsv_decode get_data_bsv_encode (λ msg. IsInvList msg.inv_list)
unfolding get_data_bsv_decode get_data_bsv_encode get_data_add_inv_vect
get_data_bsv_decode-IsCodec =
    list_message-IsCodec _ _ (λ l. record { inv_list = l }) (λ msg. msg.inv_list)
      (or_fail-Appends _ max_inv_per_msg) read_inv_vect-IsCodec (omega arith) (λ msg. refl)
      (λ l. refl)

-- MsgNotFound: a list of at most 50000 vectors, each with a 32-bit type and a hash of 32 bytes, is
-- encoded without an error and reads back, whatever follows; and from an input of bytes, shorter
-- than 2 ^ 63, only such a list is decoded, and what was read is its encoding.
pub not_found_bsv_decode-IsCodec :
    IsCodec not_found_bsv_decode not_found_bsv_encode (λ msg. IsInvList msg.inv_list)
unfolding not_found_bsv_decode not_found_bsv_encode not_found_add_inv_vect
not_found_bsv_decode-IsCodec =
    list_message-IsCodec _ _ (λ l. record { inv_list = l }) (λ msg. msg.inv_list)
      (or_keep-Appends _ max_inv_per_msg) read_inv_vect-IsCodec (omega arith) (λ msg. refl)
      (λ l. refl)
