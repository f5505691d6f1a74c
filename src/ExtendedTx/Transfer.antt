-- ===== src/ExtendedTx/Transfer.antt =====
-- Extended transactions on the wire.
use go_wire.Prelude.{refl, arith, [], ◌≡◌, ◌∷◌, ◌++◌, le→ltb, length, ◌^◌, ◌<◌, ℕ, ◌+◌}
use go_wire.Binary.{of_order, uint_of, from_le, uint8}
use go_wire.Element.{read_element}
use go_wire.Element.Transfer.{RoundTrips-uint64, RoundTrips-uint32}
use go_wire.ExtendedTx.Data.{MsgExtendedTx, ExtendedTxIn, IsExtendedTx, IsExtendedTxIn}
use go_wire.ExtendedTx.Decode.{
  read_marker, ef_header, read_extended_tx_in, read_extended_tx, extended_tx_bsv_decode,
  extended_scripts, set_extended_script, relocate_extended,
}
use go_wire.ExtendedTx.Encode.{extended_tx_bsv_encode, write_extended_tx_in}
use go_wire.Io.{read_full, refuse_if, write}
use go_wire.Io.Reads.{
  RoundTrips-each, RoundTrips-pass, RoundTrips-bind, RoundTrips-last, RoundTrips,
}
use go_wire.Limits.{max_tx_in_per_message}
use go_wire.MessageHeader.{same_bytes}
use go_wire.Tx.Data.{IsTxOut}
use go_wire.Tx.Decode.{read_tx_out}
use go_wire.Tx.Encode.{write_tx_out}
use go_wire.Tx.Scripts.{pk_scripts, set_pk_script}
use go_wire.Tx.Scripts.Relocate.{relocate_scripts_lem, assign_each_lem, joined}
use go_wire.Tx.Transfer.{max_tx_in_fits, RoundTrips-tx_out, max_tx_out_fits, RoundTrips-out_point}
use go_wire.VarBytes.Transfer.{RoundTrips-script}
use go_wire.VarInt.{read_var_int, var_int_after}
use go_wire.VarInt.Transfer.{RoundTrips-var_int}

RoundTrips-marker : RoundTrips (write (0x00 ∷ ef_header)) read_marker tt
unfolding read_marker read_var_int var_int_after uint8 uint_of read_full of_order from_le refuse_if
    same_bytes
RoundTrips-marker = record { bytes = 0x00 ∷ ef_header; written = refl; reads = λ rest. refl }

RoundTrips-extended_tx_in :
    (ebs : ℕ) (ti : ExtendedTxIn)
    → IsExtendedTxIn ebs ti
    → RoundTrips (write_extended_tx_in ti) (read_extended_tx_in ebs) ti
unfolding write_extended_tx_in read_extended_tx_in read_element
RoundTrips-extended_tx_in ebs ti h =
    let max = max_tx_in_per_message ebs in
    RoundTrips-bind _ (RoundTrips-out_point ti.previous_out_point h.0.0) (
      RoundTrips-bind _ (RoundTrips-script max ti.signature_script (omega (arith, h.0.1.1)) h.0.1.0)
        (RoundTrips-bind _ (RoundTrips-uint32 ti.sequence h.0.2) (
          RoundTrips-bind _ (RoundTrips-uint64 ti.previous_tx_satoshis h.1) (
            RoundTrips-last _
              (RoundTrips-script max ti.previous_tx_script (omega (arith, h.2.1)) h.2.0)
              (λ s. refl)))))

RoundTrips-read_extended_tx :
    (ebs : ℕ) (msg : MsgExtendedTx)
    → IsExtendedTx ebs msg
    → RoundTrips (extended_tx_bsv_encode msg) (read_extended_tx ebs) msg
unfolding extended_tx_bsv_encode read_extended_tx
RoundTrips-read_extended_tx ebs msg h =
    RoundTrips-bind _ (RoundTrips-uint32 msg.version h.version) (
      RoundTrips-bind _ RoundTrips-marker (
        RoundTrips-bind _
          (RoundTrips-var_int (length msg.tx_in) (omega (arith, h.few_ins, max_tx_in_fits ebs)))
          (RoundTrips-pass _ _ (le→ltb _ _ h.few_ins) (
            RoundTrips-bind _
              (RoundTrips-each (IsExtendedTxIn ebs) write_extended_tx_in (read_extended_tx_in ebs)
                (RoundTrips-extended_tx_in ebs) msg.tx_in h.ins)
              (RoundTrips-bind _
                (RoundTrips-var_int (length msg.tx_out)
                  (omega (arith, h.few_outs, max_tx_out_fits ebs)))
                (RoundTrips-pass _ _ (le→ltb _ _ h.few_outs) (
                  RoundTrips-bind _
                    (RoundTrips-each (IsTxOut ebs) write_tx_out (read_tx_out ebs)
                      (RoundTrips-tx_out ebs) msg.tx_out h.outs)
                    (RoundTrips-last _ (RoundTrips-uint32 msg.lock_time h.lock_time)
                      (λ s. refl)))))))))

pub relocate_extended_lem :
    (msg : MsgExtendedTx)
    → length (joined (extended_scripts msg.tx_in)) + length (joined (pk_scripts msg.tx_out))
      < 2 ^ 64
    → relocate_extended msg ≡ msg
unfolding relocate_extended
relocate_extended_lem msg h =
    let ins =
      assign_each_lem (λ ti. ti.signature_script) set_extended_script (λ ti. refl) []
        (joined (pk_scripts msg.tx_out) ++ []) msg.tx_in in
    let outs =
      assign_each_lem (λ to. to.pk_script) set_pk_script (λ to. refl)
        (joined (extended_scripts msg.tx_in)) [] msg.tx_out in
    rw (relocate_scripts_lem (extended_scripts msg.tx_in) (pk_scripts msg.tx_out) h, ins, outs) refl

-- An extended transaction within the decoder's bounds, whose signature and public key scripts are
-- together shorter than 2 ^ 64 bytes, is encoded without an error, and its encoding, followed by
-- anything, decodes to it, with the outputs that it spends, and leaves what follows.
pub extended_tx_bsv_decode-extended_tx_bsv_encode :
    (ebs : ℕ) (msg : MsgExtendedTx)
    → IsExtendedTx ebs msg
    → length (joined (extended_scripts msg.tx_in)) + length (joined (pk_scripts msg.tx_out))
      < 2 ^ 64
    → RoundTrips (extended_tx_bsv_encode msg) (extended_tx_bsv_decode ebs) msg
unfolding extended_tx_bsv_decode
extended_tx_bsv_decode-extended_tx_bsv_encode ebs msg h fits =
    RoundTrips-last _ (RoundTrips-read_extended_tx ebs msg h)
      (λ s. rw (relocate_extended_lem msg fits) refl)
