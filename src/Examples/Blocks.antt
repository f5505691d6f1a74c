-- ===== src/Examples/Blocks.antt =====
-- A block with two transactions.
use go_wire.Prelude.{◌∷◌, ◌≡◌, [], length, ◌++◌, arith, ℕ, List, refl}
use go_wire.Binary.{
  put_uint8, put_uint32, le, put_uint64, order_bytes, uint_of, uint64, of_order, uint32, uint8,
  from_le,
}
use go_wire.Block.{
  MsgBlock, IsBlock, block_bsv_encode, block_bsv_decode, block_serialize_size, read_with_locs,
  deserialize_tx_loc, position, deserialize_after,
}
use go_wire.Block.Locs.{deserialize_tx_loc-AtTxLocs, Deserialized}
use go_wire.Block.Size.{length-block_bsv_encode}
use go_wire.Block.Transfer.{block_bsv_decode-block_bsv_encode, block_bsv_encode-block_bsv_decode}
use go_wire.BlockHeader.{block_header_len, read_block_header, write_block_header, BlockHeader}
use go_wire.BlockHeader.Transfer.{RoundTrips-block_header, write_block_header-read_block_header}
use go_wire.Element.{write_element, write_elements, read_element, read_elements}
use go_wire.Examples.Txs.{some_hash, sample_tx, sample_tx-IsTx}
use go_wire.Io.{write_each, IsInput, written, refuse_if, read_full, ok, read_times}
use go_wire.Io.Reads.{RoundTrips-run, RoundTrips}
use go_wire.Limits.{
  max_tx_per_block, default_ebs, max_block_payload, max_tx_in_per_message, max_message_payload,
  max_tx_out_per_message,
}
use go_wire.Tx.Decode.{read_out_point, read_tx_out, read_tx, read_tx_in, tx_bsv_decode}
use go_wire.Tx.Encode.{tx_bsv_encode, write_tx_in, write_out_point, write_tx_out}
use go_wire.Tx.Scripts.{
  relocate, place, copy_at, slice, total_script_size, relocate_scripts, assign_each,
}
use go_wire.VarBytes.{write_var_bytes, bytes_after, read_script}
use go_wire.VarInt.{write_var_int, var_int_after, read_var_int, canonical}

abbrev pub sample_header : BlockHeader
sample_header = record {
  version = 2;
  prev_block = some_hash;
  merkle_root = some_hash;
  timestamp = 1_600_000_000;
  bits = 0x1d00_ffff;
  nonce = 77;
}

abbrev sample_block : MsgBlock
sample_block = record { header = sample_header; transactions = sample_tx ∷ sample_tx ∷ [] }

sample_block-IsBlock : IsBlock default_ebs sample_block
unfolding max_tx_per_block max_block_payload
sample_block-IsBlock = record {
  header = omega arith;
  few = omega arith;
  transactions = (sample_tx-IsTx, (sample_tx-IsTx, tt));
}

abbrev header_input : List ℕ
header_input = written (write_block_header sample_header) ++ []

write_block_header-read_block_header_example :
    (header_input ≡ written (write_block_header sample_header) ++ [])
    × (length (written (write_block_header sample_header)) ≡ block_header_len)
unfolding written write_block_header write_elements write_element put_uint32 order_bytes le
write_block_header-read_block_header_example =
    write_block_header-read_block_header header_input sample_header []
      (record { bytes = omega arith; short = omega arith })
      (RoundTrips-run (RoundTrips-block_header sample_header (omega arith)) [])

block_bsv_decode-block_bsv_encode_example :
    RoundTrips (block_bsv_encode sample_block) (block_bsv_decode default_ebs) sample_block
block_bsv_decode-block_bsv_encode_example =
    block_bsv_decode-block_bsv_encode default_ebs sample_block (omega arith) sample_block-IsBlock

abbrev block_input : List ℕ
block_input = written (block_bsv_encode sample_block) ++ []

bytes_of_block : IsInput block_input
unfolding written block_bsv_encode write_block_header write_elements write_element tx_bsv_encode
    put_uint32 put_uint64 put_uint8 order_bytes le write_var_int write_each write_tx_in write_tx_out
    write_out_point write_var_bytes
bytes_of_block = record { bytes = omega arith; short = omega arith }

block_bsv_encode-block_bsv_decode_example :
    (block_input ≡ written (block_bsv_encode sample_block) ++ []) × IsBlock default_ebs sample_block
block_bsv_encode-block_bsv_decode_example =
    block_bsv_encode-block_bsv_decode default_ebs block_input sample_block [] bytes_of_block (
      RoundTrips-run
        (block_bsv_decode-block_bsv_encode default_ebs sample_block (omega arith)
          sample_block-IsBlock)
        [])

length-block_bsv_encode_example :
    length (written (block_bsv_encode sample_block)) ≡ block_serialize_size sample_block
length-block_bsv_encode_example =
    length-block_bsv_encode default_ebs sample_block sample_block-IsBlock

-- 81 bytes of header and count, then 72 bytes for each transaction.
block_decodes :
    deserialize_tx_loc default_ebs block_input
    ≡ ok
        (
          sample_block,
          record { tx_start = 81; tx_len = 72 } ∷ record { tx_start = 153; tx_len = 72 } ∷ [],
        )
        []
unfolding deserialize_tx_loc deserialize_after read_with_locs position written block_bsv_encode
    read_block_header read_elements read_element uint32 uint64 uint8 uint_of of_order from_le
    read_full read_var_int var_int_after canonical refuse_if tx_bsv_decode read_tx read_tx_in
    read_tx_out read_out_point read_times read_script bytes_after relocate write_block_header
    write_elements write_element tx_bsv_encode put_uint32 put_uint64 put_uint8 order_bytes le
    write_var_int write_each write_tx_in write_tx_out write_out_point write_var_bytes
    max_tx_per_block max_block_payload max_tx_in_per_message max_message_payload
    max_tx_out_per_message relocate_scripts assign_each place slice copy_at total_script_size
block_decodes = refl

deserialize_tx_loc-AtTxLocs_example :
    Deserialized default_ebs block_input sample_block
      (record { tx_start = 81; tx_len = 72 } ∷ record { tx_start = 153; tx_len = 72 } ∷ [])
      []
deserialize_tx_loc-AtTxLocs_example =
    deserialize_tx_loc-AtTxLocs default_ebs block_input sample_block _ [] bytes_of_block
      block_decodes
