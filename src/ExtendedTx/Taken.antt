-- ===== src/ExtendedTx/Taken.antt =====
-- What decodes to an extended transaction is its encoding.
use go_wire.Prelude.{
  ◌≤◌, ℕ, append-nil, ◌++◌, length-append, ◌+◌, arith, ◌∙◌, ◌<◌, refl, true, All, ◌^◌, ltb→le, sym,
  [], List, length, ◌≡◌, ◌∷◌,
}
use go_wire.Binary.{put_uint8, le, order_bytes}
use go_wire.Element.{read_element}
use go_wire.Element.Transfer.{Takes-uint64, Takes-uint32}
use go_wire.ExtendedTx.Data.{IsExtendedTx, ExtendedTxIn, MsgExtendedTx, IsExtendedTxIn}
use go_wire.ExtendedTx.Decode.{
  read_extended_tx, read_marker, extended_scripts, read_extended_tx_in, ef_header,
  extended_tx_bsv_decode, relocate_extended,
}
use go_wire.ExtendedTx.Encode.{
  extended_tx_bsv_encode, extended_tx_in_size, extended_serialize_size, write_extended_tx_in,
}
use go_wire.ExtendedTx.Size.{length-extended_tx_bsv_encode, SpendsHash}
use go_wire.ExtendedTx.Transfer.{relocate_extended_lem}
use go_wire.Io.{written, ok, IsInput, done}
use go_wire.Io.Takes.{
  Takes-read_full, Takes-refuse_if, Takes-times, Takes-pass, Takes-bind, Takes-pure, Takes,
}
use go_wire.Io.Writes.{done-injective, sum_of}
use go_wire.Limits.{max_tx_in_per_message}
use go_wire.MessageHeader.{same_bytes}
use go_wire.MessageHeader.Bytes.{same_bytes-eq}
use go_wire.Tx.Data.{IsTxOut}
use go_wire.Tx.Decode.{read_tx_out}
use go_wire.Tx.Encode.{write_tx_out}
use go_wire.Tx.Scripts.Relocate.{joined}
use go_wire.Tx.Size.{joined_out-le}
use go_wire.Tx.Transfer.{Takes-read_tx_out, Takes-read_out_point}
use go_wire.VarBytes.Transfer.{Takes-script}
use go_wire.VarInt.{write_var_int}
use go_wire.VarInt.Transfer.{Takes-read_var_int}

Takes-marker : Takes read_marker (λ u bs. bs ≡ 0x00 ∷ ef_header)
unfolding read_marker write_var_int put_uint8 order_bytes le
Takes-marker = Takes-bind Takes-read_var_int λ count b0 i0 q0.
    Takes-bind (Takes-read_full 5) λ header b1 i1 q1. Takes-refuse_if _ _ λ e.
      let z : (count ≡ 0) × (same_bytes header ef_header ≡ true) = ground (arith, e) in
      let w : done (0 ∷ []) ≡ done b0 = rw z.0 at q0.1 in
      let h : b1 ≡ ef_header = sym q1.0 ∙ same_bytes-eq header ef_header z.1 in
      rw (← done-injective w, h) refl

Takes-read_extended_tx_in :
    (ebs : ℕ)
    → Takes
        (read_extended_tx_in ebs)
        (λ ti bs. IsExtendedTxIn ebs ti × (write_extended_tx_in ti ≡ done bs))
unfolding write_extended_tx_in read_extended_tx_in read_element
Takes-read_extended_tx_in ebs = Takes-bind Takes-read_out_point λ op b0 i0 q.
    Takes-bind (Takes-script (max_tx_in_per_message ebs)) λ script b1 i1 r.
      Takes-bind Takes-uint32 λ sequence b2 i2 t. Takes-bind Takes-uint64 λ satoshis b3 i3 v.
        Takes-bind (Takes-script (max_tx_in_per_message ebs)) λ spent b4 i4 w. Takes-pure (
          ((q.0, (r.0, r.1, r.2), t.0), v.0, (w.0, w.1, w.2)),
          rw (q.1, r.3, t.1, v.1, w.3, append-nil) refl,
        )

Takes-read_extended_tx :
    (ebs : ℕ)
    → Takes
        (read_extended_tx ebs)
        (λ msg bs. IsExtendedTx ebs msg × (extended_tx_bsv_encode msg ≡ done bs))
unfolding extended_tx_bsv_encode read_extended_tx
Takes-read_extended_tx ebs = Takes-bind Takes-uint32 λ version b0 i0 v.
    Takes-bind Takes-marker λ _ bm im m. Takes-bind Takes-read_var_int λ in_count b1 i1 c.
      Takes-pass _ _ λ few_ins.
        Takes-bind
          (Takes-times (IsExtendedTxIn ebs) write_extended_tx_in (read_extended_tx_in ebs)
            (Takes-read_extended_tx_in ebs) in_count)
          λ ins b2 i2 is. Takes-bind Takes-read_var_int λ out_count b3 i3 d.
            Takes-pass _ _ λ few_outs.
              Takes-bind
                (Takes-times (IsTxOut ebs) write_tx_out (read_tx_out ebs) (Takes-read_tx_out ebs)
                  out_count)
                λ outs b4 i4 os. Takes-bind Takes-uint32 λ lock_time b5 i5 l. Takes-pure (
                  record {
                    version = v.0;
                    few_ins = omega (arith, is.0, ltb→le _ _ few_ins);
                    ins = is.1;
                    few_outs = omega (arith, os.0, ltb→le _ _ few_outs);
                    outs = os.1;
                    lock_time = l.0;
                  },
                  rw (is.0, os.0, v.1, m, c.1, is.2, d.1, os.2, l.1, append-nil) refl,
                )

joined_extended-le :
    (ins : List ExtendedTxIn)
    → length (joined (extended_scripts ins)) ≤ sum_of extended_tx_in_size ins
unfolding sum_of extended_tx_in_size
joined_extended-le [] = omega arith
joined_extended-le (ti ∷ ins) = omega (
  arith,
  joined_extended-le ins,
  length-append ti.signature_script (joined (extended_scripts ins)),
)

ins_spend_hashes :
    (ebs : ℕ) (ins : List ExtendedTxIn) → All (IsExtendedTxIn ebs) ins → All SpendsHash ins
ins_spend_hashes ebs [] h = tt
ins_spend_hashes ebs (ti ∷ ins) h = (h.0.0.0.0.0, ins_spend_hashes ebs ins h.1)

relocate_extended-read :
    (ebs : ℕ) (msg : MsgExtendedTx) (bs : List ℕ)
    → IsExtendedTx ebs msg
    → extended_tx_bsv_encode msg ≡ done bs
    → length bs < 2 ^ 63
    → relocate_extended msg ≡ msg
unfolding written extended_serialize_size
relocate_extended-read ebs msg bs h e short =
    let n : length bs ≡ extended_serialize_size msg + 6 =
      rw e at (length-extended_tx_bsv_encode msg (ins_spend_hashes ebs msg.tx_in h.ins)) in
    relocate_extended_lem msg
      (omega (arith, n, short, joined_extended-le msg.tx_in, joined_out-le msg.tx_out))

Takes-extended_tx_bsv_decode :
    (ebs : ℕ)
    → Takes
        (extended_tx_bsv_decode ebs)
        (λ msg bs. IsExtendedTx ebs msg × (extended_tx_bsv_encode msg ≡ done bs))
unfolding extended_tx_bsv_decode
Takes-extended_tx_bsv_decode ebs = Takes-bind (Takes-read_extended_tx ebs) λ msg bs i q.
    let e = relocate_extended-read ebs msg bs q.0 q.1 i.short in
    Takes-pure (rw e (q.0, rw append-nil q.1))

-- If an input of bytes, shorter than 2 ^ 63, decodes to an extended transaction, then it begins with
-- the encoding of the transaction, followed by what is left, and the transaction is within the bounds.
pub extended_tx_bsv_encode-extended_tx_bsv_decode :
    (ebs : ℕ) (s : List ℕ) (msg : MsgExtendedTx) (rest : List ℕ)
    → IsInput s
    → extended_tx_bsv_decode ebs s ≡ ok msg rest
    → (s ≡ written (extended_tx_bsv_encode msg) ++ rest) × IsExtendedTx ebs msg
unfolding written
extended_tx_bsv_encode-extended_tx_bsv_decode ebs s msg rest i e =
    let (bs, es, q) = (Takes-extended_tx_bsv_decode ebs).at s msg rest i e in (rw q.1 es, q.0)
