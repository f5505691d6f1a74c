-- ===== src/Examples/Txs.antt =====
-- A transaction with one input and two outputs.
use go_wire.Prelude.{◌-◌, ◌∷◌, refl, ◌^◌, ◌≡◌, [], length, ◌++◌, arith, ℕ, List, replicate}
use go_wire.Arena.{new_block_arena_sized}
use go_wire.Binary.{put_uint8, put_uint32, le, put_uint64, order_bytes}
use go_wire.Io.{write_each, IsInput, ok, written}
use go_wire.Io.Agrees.{Matches}
use go_wire.Io.Reads.{RoundTrips-run, RoundTrips}
use go_wire.Io.Writes.{sum_of}
use go_wire.Limits.{max_message_payload, default_ebs, max_tx_out_per_message, max_tx_in_per_message}
use go_wire.Tx.ArenaDecode.{tx_bsv_decode_with_arena}
use go_wire.Tx.ArenaDecode.Agreement.{Beside, tx_bsv_decode_with_arena-Matches}
use go_wire.Tx.Data.{IsTx, MsgTx}
use go_wire.Tx.Decode.{tx_bsv_decode}
use go_wire.Tx.Encode.{
  tx_in_size, tx_out_size, serialize_size, tx_bsv_encode, pk_script_locs, write_tx_in,
  write_out_point, script_locs, write_tx_out,
}
use go_wire.Tx.Locs.{AtLocs, pk_script_locs-AtLocs}
use go_wire.Tx.Scripts.{relocate}
use go_wire.Tx.Scripts.Relocate.{relocate_lem}
use go_wire.Tx.Transfer.{
  length-tx_bsv_encode, tx_bsv_encode-tx_bsv_decode, tx_bsv_decode-tx_bsv_encode,
}
use go_wire.VarBytes.{write_var_bytes}
use go_wire.VarInt.{var_int_serialize_size, write_var_int}

abbrev pub some_hash : List ℕ
some_hash = replicate 32 7

abbrev pub sample_tx : MsgTx
sample_tx = record {
  version = 1;
  tx_in =
      record {
        previous_out_point = record { hash = some_hash; index = 3 };
        signature_script = 4 ∷ 5 ∷ [];
        sequence = 0xffff_ffff;
      }
      ∷ [];
  tx_out =
      record { value = 500; pk_script = 0x51 ∷ [] }
      ∷ record { value = 2 ^ 64 - 1; pk_script = [] }
      ∷ [];
  lock_time = 9;
}

pub sample_tx-IsTx : IsTx default_ebs sample_tx
unfolding max_tx_in_per_message max_tx_out_per_message max_message_payload
sample_tx-IsTx = record {
  version = omega arith;
  few_ins = omega arith;
  ins = omega arith;
  few_outs = omega arith;
  outs = omega arith;
  lock_time = omega arith;
}

abbrev input : List ℕ
input = written (tx_bsv_encode sample_tx) ++ (1 ∷ [])

pub bytes_of_sample : IsInput input
unfolding written tx_bsv_encode put_uint32 put_uint64 put_uint8 order_bytes le write_var_int
    write_each write_tx_in write_tx_out write_out_point write_var_bytes
bytes_of_sample = record { bytes = omega arith; short = omega arith }

tx_bsv_decode-tx_bsv_encode_example :
    RoundTrips (tx_bsv_encode sample_tx) (tx_bsv_decode default_ebs) sample_tx
tx_bsv_decode-tx_bsv_encode_example =
    tx_bsv_decode-tx_bsv_encode default_ebs sample_tx sample_tx-IsTx (omega arith)

sample_decodes : tx_bsv_decode default_ebs input ≡ ok sample_tx (1 ∷ [])
sample_decodes =
    RoundTrips-run (tx_bsv_decode-tx_bsv_encode default_ebs sample_tx sample_tx-IsTx (omega arith))
      (1 ∷ [])

tx_bsv_encode-tx_bsv_decode_example :
    (input ≡ written (tx_bsv_encode sample_tx) ++ (1 ∷ [])) × IsTx default_ebs sample_tx
tx_bsv_encode-tx_bsv_decode_example =
    tx_bsv_encode-tx_bsv_decode default_ebs input sample_tx (1 ∷ []) bytes_of_sample sample_decodes

tx_bsv_decode_with_arena-Matches_example :
    Matches Beside
      (tx_bsv_decode_with_arena default_ebs (new_block_arena_sized 0) input)
      (tx_bsv_decode default_ebs input)
tx_bsv_decode_with_arena-Matches_example =
    tx_bsv_decode_with_arena-Matches default_ebs (new_block_arena_sized 0) input bytes_of_sample

length-tx_bsv_encode_example : length (written (tx_bsv_encode sample_tx)) ≡ serialize_size sample_tx
length-tx_bsv_encode_example = length-tx_bsv_encode default_ebs sample_tx sample_tx-IsTx

-- 4 + 1 + 43 + 1 + 10 + 9 + 4
sample_size : serialize_size sample_tx ≡ 72
unfolding serialize_size tx_in_size tx_out_size var_int_serialize_size sum_of
sample_size = refl

sample_locs : pk_script_locs sample_tx ≡ 58 ∷ 68 ∷ []
unfolding pk_script_locs script_locs tx_in_size var_int_serialize_size sum_of
sample_locs = refl

pk_script_locs-AtLocs_example :
    AtLocs (written (tx_bsv_encode sample_tx)) (pk_script_locs sample_tx) sample_tx.tx_out
pk_script_locs-AtLocs_example = pk_script_locs-AtLocs sample_tx (refl, tt)

relocate_lem_example : relocate sample_tx ≡ sample_tx
relocate_lem_example = relocate_lem sample_tx (omega arith)
