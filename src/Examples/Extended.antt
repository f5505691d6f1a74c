-- ===== src/Examples/Extended.antt =====
-- An extended transaction with one input, which spends an output of 50 satoshis, and one output.
use go_wire.Prelude.{refl, arith, ◌+◌, List, [], map, ◌++◌, ◌≡◌, ◌∷◌, length, ℕ, replicate}
use go_wire.Binary.{of_order, uint64, uint32, uint_of, uint8, from_le}
use go_wire.Element.{read_element}
use go_wire.ExtendedTx.Copy.{tx_bsv_decode-copy, IsPlainOf}
use go_wire.ExtendedTx.Data.{MsgExtendedTx, copy, IsExtendedTx}
use go_wire.ExtendedTx.Decode.{
  extended_tx_bsv_decode, read_extended_tx, ef_header, read_marker, read_extended_tx_in,
  relocate_extended,
}
use go_wire.ExtendedTx.Encode.{
  extended_tx_bsv_encode, extended_serialize_size, extended_pk_script_locs, extended_tx_in_size,
}
use go_wire.ExtendedTx.Size.{length-extended_tx_bsv_encode, extended_pk_script_locs-AtLocs}
use go_wire.ExtendedTx.Taken.{extended_tx_bsv_encode-extended_tx_bsv_decode}
use go_wire.ExtendedTx.Transfer.{extended_tx_bsv_decode-extended_tx_bsv_encode}
use go_wire.Io.{refuse_if, read_times, ok, written, read_full}
use go_wire.Io.Reads.{RoundTrips}
use go_wire.Io.Writes.{sum_of}
use go_wire.Limits.{default_ebs, max_message_payload, max_tx_out_per_message, max_tx_in_per_message}
use go_wire.MessageHeader.{same_bytes}
use go_wire.Tx.Copy.{tx_copy}
use go_wire.Tx.Data.{max_tx_in_sequence_num, IsTx}
use go_wire.Tx.Decode.{read_out_point, read_tx_out, tx_bsv_decode}
use go_wire.Tx.Encode.{tx_bsv_encode, script_locs}
use go_wire.Tx.Locs.{AtLocs}
use go_wire.Tx.Scripts.{total_script_size, copy_at, place, assign_each, relocate_scripts, slice}
use go_wire.VarBytes.{bytes_after, read_script}
use go_wire.VarInt.{var_int_after, read_var_int, var_int_serialize_size, canonical}

abbrev extended_sample : MsgExtendedTx
extended_sample = record {
  version = 1;
  tx_in =
      record {
        previous_out_point = record { hash = replicate 32 1; index = 0 };
        previous_tx_satoshis = 50;
        previous_tx_script = 0x51 ∷ [];
        signature_script = 0xaa ∷ 0xbb ∷ [];
        sequence = max_tx_in_sequence_num;
      }
      ∷ [];
  tx_out = record { value = 49; pk_script = 0x52 ∷ [] } ∷ [];
  lock_time = 0;
}

extended_sample-IsExtendedTx : IsExtendedTx default_ebs extended_sample
unfolding max_tx_in_per_message max_tx_out_per_message max_message_payload
extended_sample-IsExtendedTx = record {
  version = omega arith;
  few_ins = omega arith;
  ins = omega arith;
  few_outs = omega arith;
  outs = omega arith;
  lock_time = omega arith;
}

extended_tx_bsv_decode-extended_tx_bsv_encode_example :
    RoundTrips
      (extended_tx_bsv_encode extended_sample)
      (extended_tx_bsv_decode default_ebs)
      extended_sample
extended_tx_bsv_decode-extended_tx_bsv_encode_example =
    extended_tx_bsv_decode-extended_tx_bsv_encode default_ebs extended_sample
      extended_sample-IsExtendedTx (omega arith)

abbrev extended_input : List ℕ
extended_input =
    (1 ∷ 0 ∷ 0 ∷ 0 ∷ 0x00 ∷ ef_header)
    ++ (1
        ∷ (replicate 32 1
            ++ (0
                ∷ 0
                ∷ 0
                ∷ 0
                ∷ 2
                ∷ 0xaa
                ∷ 0xbb
                ∷ (replicate 4 0xff
                    ++ (50
                        ∷ (replicate 7 0
                            ++ (1
                                ∷ 0x51
                                ∷ 1
                                ∷ 49
                                ∷ (replicate 7 0 ++ (1 ∷ 0x52 ∷ 0 ∷ 0 ∷ 0 ∷ 0 ∷ [])))))))))

extended_read :
    extended_tx_bsv_decode default_ebs (extended_input ++ (7 ∷ [])) ≡ ok extended_sample (7 ∷ [])
unfolding extended_tx_bsv_decode read_extended_tx read_marker read_extended_tx_in read_var_int
    var_int_after uint8 uint32 uint64 uint_of read_full of_order from_le refuse_if read_times
    read_tx_out read_out_point read_script bytes_after read_element relocate_extended
    relocate_scripts assign_each place slice copy_at total_script_size same_bytes canonical
    max_tx_in_per_message max_tx_out_per_message max_message_payload
extended_read = refl

extended_tx_bsv_encode-extended_tx_bsv_decode_example :
    (extended_input ++ (7 ∷ []) ≡ written (extended_tx_bsv_encode extended_sample) ++ (7 ∷ []))
    × IsExtendedTx default_ebs extended_sample
extended_tx_bsv_encode-extended_tx_bsv_decode_example =
    extended_tx_bsv_encode-extended_tx_bsv_decode default_ebs (extended_input ++ (7 ∷ []))
      extended_sample (7 ∷ []) (record { bytes = omega arith; short = omega arith }) extended_read

tx_bsv_decode-copy_example :
    IsPlainOf extended_sample (copy extended_sample)
    × IsTx default_ebs (copy extended_sample)
    × RoundTrips
        (tx_bsv_encode (copy extended_sample))
        (tx_bsv_decode default_ebs)
        (copy extended_sample)
    × (tx_copy (copy extended_sample) ≡ copy extended_sample)
tx_bsv_decode-copy_example =
    tx_bsv_decode-copy default_ebs extended_sample extended_sample-IsExtendedTx (omega arith)

length-extended_tx_bsv_encode_example :
    length (written (extended_tx_bsv_encode extended_sample))
    ≡ extended_serialize_size extended_sample + 6
length-extended_tx_bsv_encode_example = length-extended_tx_bsv_encode extended_sample (refl, tt)

extended_pk_script_locs-AtLocs_example :
    AtLocs
      (written (extended_tx_bsv_encode extended_sample))
      (map (λ l. l + 6) (extended_pk_script_locs extended_sample))
      extended_sample.tx_out
extended_pk_script_locs-AtLocs_example = extended_pk_script_locs-AtLocs extended_sample (refl, tt)

-- The computed location is that of a byte before the script.
extended_sample_locs : extended_pk_script_locs extended_sample ≡ 68 ∷ []
unfolding extended_pk_script_locs script_locs extended_tx_in_size var_int_serialize_size sum_of
extended_sample_locs = refl
