-- ===== src/ExtendedTx/Copy.antt =====
-- Copy of an extended transaction gives the plain one.
use go_wire.Prelude.{map, [], ◌<◌, refl, suc, All, length, ◌∷◌, ◌≡◌, ◌^◌, ap, List, ℕ, ◌+◌}
use go_wire.ExtendedTx.Data.{
  copy_tx_in, ExtendedTxIn, IsExtendedTxIn, MsgExtendedTx, IsExtendedTx, copy,
}
use go_wire.ExtendedTx.Decode.{extended_scripts}
use go_wire.Io.Reads.{RoundTrips}
use go_wire.Tx.Copy.{copy_script_lem, tx_copy, tx_copy_lem, copy_tx_out_lem}
use go_wire.Tx.Data.{IsTxIn, IsTx, MsgTx}
use go_wire.Tx.Decode.{tx_bsv_decode}
use go_wire.Tx.Encode.{tx_bsv_encode}
use go_wire.Tx.Scripts.{signature_scripts, pk_scripts}
use go_wire.Tx.Scripts.Relocate.{joined}
use go_wire.Tx.Transfer.{tx_bsv_decode-tx_bsv_encode}

copy_tx_in-IsTxIn :
    (ebs : ℕ) (ins : List ExtendedTxIn)
    → All (IsExtendedTxIn ebs) ins
    → All (IsTxIn ebs) (map copy_tx_in ins)
unfolding copy_tx_in
copy_tx_in-IsTxIn ebs [] h = tt
copy_tx_in-IsTxIn ebs (ti ∷ ins) h =
    (rw (copy_script_lem ti.signature_script) h.0.0, copy_tx_in-IsTxIn ebs ins h.1)

length-map_copy : (ins : List ExtendedTxIn) → length (map copy_tx_in ins) ≡ length ins
length-map_copy [] = refl
length-map_copy (ti ∷ ins) = ap suc (length-map_copy ins)

copy-in_scripts :
    (ins : List ExtendedTxIn) → signature_scripts (map copy_tx_in ins) ≡ extended_scripts ins
unfolding copy_tx_in
copy-in_scripts [] = refl
copy-in_scripts (ti ∷ ins) = rw (copy_script_lem ti.signature_script, copy-in_scripts ins) refl

copy-out_points :
    (ins : List ExtendedTxIn)
    → map (λ ti. ti.previous_out_point) (map copy_tx_in ins) ≡ map (λ ti. ti.previous_out_point) ins
unfolding copy_tx_in
copy-out_points [] = refl
copy-out_points (ti ∷ ins) = rw (copy-out_points ins) refl

copy-sequences :
    (ins : List ExtendedTxIn)
    → map (λ ti. ti.sequence) (map copy_tx_in ins) ≡ map (λ ti. ti.sequence) ins
unfolding copy_tx_in
copy-sequences [] = refl
copy-sequences (ti ∷ ins) = rw (copy-sequences ins) refl

-- `tx` has everything of `msg` but what its inputs spend.
pub record IsPlainOf (msg : MsgExtendedTx) (tx : MsgTx) : Type 0 where
  pub version : tx.version ≡ msg.version
  pub out_points :
      map (λ ti. ti.previous_out_point) tx.tx_in ≡ map (λ ti. ti.previous_out_point) msg.tx_in
  pub signature_scripts :
      map (λ ti. ti.signature_script) tx.tx_in ≡ map (λ ti. ti.signature_script) msg.tx_in
  pub sequences : map (λ ti. ti.sequence) tx.tx_in ≡ map (λ ti. ti.sequence) msg.tx_in
  pub tx_out : tx.tx_out ≡ msg.tx_out
  pub lock_time : tx.lock_time ≡ msg.lock_time

copy-scripts :
    (ins : List ExtendedTxIn)
    → map (λ ti. ti.signature_script) (map copy_tx_in ins) ≡ map (λ ti. ti.signature_script) ins
unfolding copy_tx_in
copy-scripts [] = refl
copy-scripts (ti ∷ ins) = rw (copy_script_lem ti.signature_script, copy-scripts ins) refl

copy-IsPlainOf : (msg : MsgExtendedTx) → IsPlainOf msg (copy msg)
unfolding copy
copy-IsPlainOf msg = record {
  version = refl;
  out_points = copy-out_points msg.tx_in;
  signature_scripts = copy-scripts msg.tx_in;
  sequences = copy-sequences msg.tx_in;
  tx_out = copy_tx_out_lem msg.tx_out;
  lock_time = refl;
}

copy-IsTx : (ebs : ℕ) (msg : MsgExtendedTx) → IsExtendedTx ebs msg → IsTx ebs (copy msg)
unfolding copy
copy-IsTx ebs msg h =
    let outs = copy_tx_out_lem msg.tx_out in
    record {
      version = h.version;
      few_ins = rw (length-map_copy msg.tx_in) h.few_ins;
      ins = copy_tx_in-IsTxIn ebs msg.tx_in h.ins;
      few_outs = rw outs h.few_outs;
      outs = rw outs h.outs;
      lock_time = h.lock_time;
    }

-- The copy of an extended transaction within the decoder's bounds, whose signature and public key
-- scripts are together shorter than 2 ^ 64 bytes, has its version, the outpoints, signature scripts
-- and sequences of its inputs in their order, its outputs and its lock time, and is a plain
-- transaction within the bounds: its encoding, followed by anything, decodes to it and leaves what
-- follows. To copy that transaction again changes nothing.
pub tx_bsv_decode-copy :
    (ebs : ℕ) (msg : MsgExtendedTx)
    → IsExtendedTx ebs msg
    → length (joined (extended_scripts msg.tx_in)) + length (joined (pk_scripts msg.tx_out))
      < 2 ^ 64
    → IsPlainOf msg (copy msg)
      × IsTx ebs (copy msg)
      × RoundTrips (tx_bsv_encode (copy msg)) (tx_bsv_decode ebs) (copy msg)
      × (tx_copy (copy msg) ≡ copy msg)
unfolding copy
tx_bsv_decode-copy ebs msg h fits =
    let plain = copy-IsTx ebs msg h in
    (
      copy-IsPlainOf msg,
      plain,
      tx_bsv_decode-tx_bsv_encode ebs (copy msg) plain
          (rw (copy-in_scripts msg.tx_in, copy_tx_out_lem msg.tx_out) fits),
      tx_copy_lem (copy msg),
    )
