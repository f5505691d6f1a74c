-- ===== src/Examples/Messages.antt =====
-- Inventories, requests, headers and pings.
use go_wire.Prelude.{◌∷◌, ◌++◌, List, ◌≡◌, arith, ℕ, []}
use go_wire.Binary.{put_uint32, order_bytes, put_uint8, le}
use go_wire.BlockHeader.{write_block_header}
use go_wire.Counted.{write_counted}
use go_wire.Element.{write_elements, write_element}
use go_wire.Examples.Blocks.{sample_header}
use go_wire.Examples.Txs.{some_hash}
use go_wire.Headers.{write_lone_header, IsHeaderList, MsgHeaders, headers_bsv_encode}
use go_wire.Headers.RoundTrip.{
  headers_bsv_encode-headers_bsv_decode, headers_bsv_decode-headers_bsv_encode,
}
use go_wire.Inventory.{IsInvList, MsgInv, write_inv_vect, inv_bsv_encode}
use go_wire.Inventory.RoundTrip.{inv_bsv_decode-inv_bsv_encode, inv_bsv_encode-inv_bsv_decode}
use go_wire.Io.{written, write_each, refuse_put, IsInput}
use go_wire.Io.Reads.{RoundTrips-run}
use go_wire.Locator.{get_headers_bsv_encode, MsgGetHeaders}
use go_wire.VarInt.{write_var_int}

abbrev sample_inv : MsgInv
sample_inv = record {
  inv_list = record { type = 1; hash = some_hash } ∷ record { type = 2; hash = some_hash } ∷ [];
}

abbrev inv_input : List ℕ
inv_input = written (inv_bsv_encode sample_inv) ++ (5 ∷ [])

bytes_of_inv : IsInput inv_input
unfolding written inv_bsv_encode refuse_put write_counted write_each write_inv_vect write_elements
    write_element put_uint32 put_uint8 order_bytes le write_var_int
bytes_of_inv = record { bytes = omega arith; short = omega arith }

inv_bsv_encode-inv_bsv_decode_example :
    (inv_input ≡ written (inv_bsv_encode sample_inv) ++ (5 ∷ [])) × IsInvList sample_inv.inv_list
inv_bsv_encode-inv_bsv_decode_example =
    inv_bsv_encode-inv_bsv_decode inv_input sample_inv (5 ∷ []) bytes_of_inv
      (RoundTrips-run (inv_bsv_decode-inv_bsv_encode sample_inv (omega arith)) (5 ∷ []))

abbrev sample_get_headers : MsgGetHeaders
sample_get_headers = record {
  protocol_version = 70016;
  block_locator_hashes = some_hash ∷ some_hash ∷ [];
  hash_stop = some_hash;
}

abbrev get_headers_input : List ℕ
get_headers_input = written (get_headers_bsv_encode sample_get_headers) ++ []

bytes_of_get_headers : IsInput get_headers_input
unfolding written get_headers_bsv_encode refuse_put write_counted write_each write_element
    put_uint32 put_uint8 order_bytes le write_var_int
bytes_of_get_headers = record { bytes = omega arith; short = omega arith }

abbrev sample_headers : MsgHeaders
sample_headers = record { headers = sample_header ∷ sample_header ∷ [] }

abbrev headers_input : List ℕ
headers_input = written (headers_bsv_encode sample_headers) ++ (1 ∷ [])

bytes_of_headers : IsInput headers_input
unfolding written headers_bsv_encode refuse_put write_counted write_each write_lone_header
    write_block_header write_elements write_element put_uint32 put_uint8 order_bytes le
    write_var_int
bytes_of_headers = record { bytes = omega arith; short = omega arith }

headers_bsv_encode-headers_bsv_decode_example :
    (headers_input ≡ written (headers_bsv_encode sample_headers) ++ (1 ∷ []))
    × IsHeaderList sample_headers.headers
headers_bsv_encode-headers_bsv_decode_example =
    headers_bsv_encode-headers_bsv_decode headers_input sample_headers (1 ∷ []) bytes_of_headers
      (RoundTrips-run (headers_bsv_decode-headers_bsv_encode sample_headers (omega arith)) (1 ∷ []))
