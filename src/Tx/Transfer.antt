-- ===== src/Tx/Transfer.antt =====
-- Transactions on the wire: what the encoder writes decodes to the transaction, and what decodes is
-- what the encoder writes.
use go_wire.Prelude.{
  length, ◌+◌, refl, append-nil, ◌<◌, le→ltb, arith, ltb→le, ℕ, ◌^◌, ◌≡◌, ◌++◌, All, ◌∷◌, List, [],
}
use go_wire.Binary.Transfer.{RoundTrips-read_full}
use go_wire.Element.{read_element}
use go_wire.Element.Transfer.{
  RoundTrips-uint32, Takes-uint32, Takes-uint64, Takes-array, RoundTrips-uint64,
}
use go_wire.Io.{done, IsInput, written, ok, pure, Outcome, err}
use go_wire.Io.Reads.{
  RoundTrips-pass, RoundTrips, RoundTrips-each, RoundTrips-bind, RoundTrips-last,
}
use go_wire.Io.Takes.{Takes-pass, Takes, Takes-pure, Takes-times, Takes-bind, IsInput-taken}
use go_wire.Io.Writes.{length-written}
use go_wire.Limits.{max_tx_out_per_message, max_message_payload, max_tx_in_per_message}
use go_wire.Tx.Data.{MsgTx, IsTxIn, IsTxOut, OutPoint, IsTx, TxIn, TxOut, IsOutPoint}
use go_wire.Tx.Decode.{read_out_point, read_tx_in, read_tx_out, read_tx, tx_bsv_decode}
use go_wire.Tx.Encode.{write_out_point, write_tx_in, write_tx_out, tx_bsv_encode, serialize_size}
use go_wire.Tx.Scripts.{in_scripts, out_scripts, relocate}
use go_wire.Tx.Scripts.Relocate.{relocate_lem, joined}
use go_wire.Tx.Size.{InHasHash, Writes-tx, scripts-le-serialize_size}
use go_wire.VarBytes.Transfer.{Takes-script, RoundTrips-script}
use go_wire.VarInt.Transfer.{Takes-read_var_int, RoundTrips-var_int}

pub max_tx_in_fits : (ebs : ℕ) → max_tx_in_per_message ebs < 2 ^ 64
unfolding max_tx_in_per_message max_message_payload
max_tx_in_fits ebs = omega arith

pub max_tx_out_fits : (ebs : ℕ) → max_tx_out_per_message ebs < 2 ^ 64
unfolding max_tx_out_per_message max_message_payload
max_tx_out_fits ebs = omega arith

pub RoundTrips-out_point :
    (op : OutPoint) → IsOutPoint op → RoundTrips (write_out_point op) read_out_point op
unfolding write_out_point read_out_point
RoundTrips-out_point op h =
    RoundTrips-bind _ (RoundTrips-read_full 32 op.hash h.0.0)
      (RoundTrips-last _ (RoundTrips-uint32 op.index h.1) (λ s. refl))

RoundTrips-tx_in :
    (ebs : ℕ) (ti : TxIn) → IsTxIn ebs ti → RoundTrips (write_tx_in ti) (read_tx_in ebs) ti
unfolding write_tx_in read_tx_in read_element
RoundTrips-tx_in ebs ti h = RoundTrips-bind _ (RoundTrips-out_point ti.previous_out_point h.0) (
    RoundTrips-bind _
      (RoundTrips-script (max_tx_in_per_message ebs) ti.signature_script (omega (arith, h.1.1))
        h.1.0)
      (RoundTrips-last _ (RoundTrips-uint32 ti.sequence h.2) (λ s. refl)))

pub RoundTrips-tx_out :
    (ebs : ℕ) (to : TxOut) → IsTxOut ebs to → RoundTrips (write_tx_out to) (read_tx_out ebs) to
unfolding write_tx_out read_tx_out read_element
RoundTrips-tx_out ebs to h = RoundTrips-bind _ (RoundTrips-uint64 to.value h.0) (
    RoundTrips-last _
      (RoundTrips-script (max_message_payload ebs) to.pk_script (omega (arith, h.1.1)) h.1.0)
      (λ s. refl))

pub RoundTrips-read_tx :
    (ebs : ℕ) (msg : MsgTx) → IsTx ebs msg → RoundTrips (tx_bsv_encode msg) (read_tx ebs) msg
unfolding tx_bsv_encode read_tx
RoundTrips-read_tx ebs msg h = RoundTrips-bind _ (RoundTrips-uint32 msg.version h.version) (
    RoundTrips-bind _
      (RoundTrips-var_int (length msg.tx_in) (omega (arith, h.few_ins, max_tx_in_fits ebs)))
      (RoundTrips-pass _ _ (le→ltb _ _ h.few_ins) (
        RoundTrips-bind _
          (RoundTrips-each (IsTxIn ebs) write_tx_in (read_tx_in ebs) (RoundTrips-tx_in ebs)
            msg.tx_in h.ins)
          (RoundTrips-bind _
            (RoundTrips-var_int (length msg.tx_out)
              (omega (arith, h.few_outs, max_tx_out_fits ebs)))
            (RoundTrips-pass _ _ (le→ltb _ _ h.few_outs) (
              RoundTrips-bind _
                (RoundTrips-each (IsTxOut ebs) write_tx_out (read_tx_out ebs)
                  (RoundTrips-tx_out ebs) msg.tx_out h.outs)
                (RoundTrips-last _ (RoundTrips-uint32 msg.lock_time h.lock_time) (λ s. refl))))))))

-- A transaction within the decoder's bounds, whose scripts are together shorter than 2 ^ 64 bytes,
-- is encoded without an error, and its encoding, followed by anything, decodes to it and leaves
-- what follows.
pub tx_bsv_decode-tx_bsv_encode :
    (ebs : ℕ) (msg : MsgTx)
    → IsTx ebs msg
    → length (joined (in_scripts msg)) + length (joined (out_scripts msg)) < 2 ^ 64
    → RoundTrips (tx_bsv_encode msg) (tx_bsv_decode ebs) msg
unfolding tx_bsv_decode
tx_bsv_decode-tx_bsv_encode ebs msg h fits =
    RoundTrips-last _ (RoundTrips-read_tx ebs msg h) (λ s. rw (relocate_lem msg fits))

pub Takes-read_out_point :
    Takes read_out_point (λ op bs. IsOutPoint op × (write_out_point op ≡ done bs))
unfolding write_out_point read_out_point
Takes-read_out_point = Takes-bind (Takes-array 32) λ hash bs i q.
    Takes-bind Takes-uint32 λ index cs j r. Takes-pure ((q.0, r.0), rw (q.1, r.1, append-nil))

Takes-read_tx_in :
    (ebs : ℕ) → Takes (read_tx_in ebs) (λ ti bs. IsTxIn ebs ti × (write_tx_in ti ≡ done bs))
unfolding write_tx_in read_tx_in read_element
Takes-read_tx_in ebs = Takes-bind Takes-read_out_point λ op bs i q.
    Takes-bind (Takes-script (max_tx_in_per_message ebs)) λ script cs j r.
      Takes-bind Takes-uint32
        λ sequence ds k t. Takes-pure ((q.0, (r.0, r.1, r.2), t.0), rw (q.1, r.3, t.1, append-nil))

pub Takes-read_tx_out :
    (ebs : ℕ) → Takes (read_tx_out ebs) (λ to bs. IsTxOut ebs to × (write_tx_out to ≡ done bs))
unfolding write_tx_out read_tx_out read_element
Takes-read_tx_out ebs = Takes-bind Takes-uint64 λ value bs i q.
    Takes-bind (Takes-script (max_message_payload ebs))
      λ script cs j r. Takes-pure ((q.0, (r.0, r.1, r.2)), rw (q.1, r.3, append-nil))

pub Takes-read_tx :
    (ebs : ℕ) → Takes (read_tx ebs) (λ msg bs. IsTx ebs msg × (tx_bsv_encode msg ≡ done bs))
unfolding tx_bsv_encode read_tx
Takes-read_tx ebs = Takes-bind Takes-uint32 λ version b0 i0 v.
    Takes-bind Takes-read_var_int λ in_count b1 i1 c. Takes-pass _ _ λ few_ins.
      Takes-bind
        (Takes-times (IsTxIn ebs) write_tx_in (read_tx_in ebs) (Takes-read_tx_in ebs) in_count)
        λ ins b2 i2 is. Takes-bind Takes-read_var_int λ out_count b3 i3 d.
          Takes-pass _ _ λ few_outs.
            Takes-bind
              (Takes-times (IsTxOut ebs) write_tx_out (read_tx_out ebs) (Takes-read_tx_out ebs)
                out_count)
              λ outs b4 i4 os. Takes-bind Takes-uint32 λ lock_time b5 i5 l. Takes-pure (
                record {
                  version = v.0;
                  few_ins = omega (arith, is.0, ltb→le _ _ few_ins);
                  ins = is.1;
                  few_outs = omega (arith, os.0, ltb→le _ _ few_outs);
                  outs = os.1;
                  lock_time = l.0;
                },
                rw (is.0, os.0, v.1, c.1, is.2, d.1, os.2, l.1, append-nil),
              )

pub ins_have_hashes : (ebs : ℕ) (ins : List TxIn) → All (IsTxIn ebs) ins → All InHasHash ins
ins_have_hashes ebs [] h = tt
ins_have_hashes ebs (ti ∷ ins) h = (h.0.0.0.0, ins_have_hashes ebs ins h.1)

-- The encoding of a transaction within the decoder's bounds has the length that SerializeSize gives.
pub length-tx_bsv_encode :
    (ebs : ℕ) (msg : MsgTx)
    → IsTx ebs msg
    → length (written (tx_bsv_encode msg)) ≡ serialize_size msg
length-tx_bsv_encode ebs msg h =
    length-written (Writes-tx msg (ins_have_hashes ebs msg.tx_in h.ins))

relocate-read :
    (ebs : ℕ) (msg : MsgTx) (bs : List ℕ)
    → IsTx ebs msg
    → tx_bsv_encode msg ≡ done bs
    → length bs < 2 ^ 63
    → relocate msg ≡ msg
unfolding written
relocate-read ebs msg bs h e short =
    let n : length bs ≡ serialize_size msg = rw e at (length-tx_bsv_encode ebs msg h) in
    relocate_lem msg (omega (arith, n, short, scripts-le-serialize_size msg))

-- On an input of bytes the copying of the scripts changes nothing.
pub tx_bsv_decode-read_tx : (ebs : ℕ) (s : List ℕ) → IsInput s → tx_bsv_decode ebs s ≡ read_tx ebs s
unfolding tx_bsv_decode
tx_bsv_decode-read_tx ebs s i = go (read_tx ebs s) refl
  where
    go :
        (o : Outcome MsgTx)
        → read_tx ebs s ≡ o
        → (elim o [ ok msg r ↦ pure (relocate msg) r | err e r ↦ err e r ]) ≡ o
    go (ok msg rest) e =
        let (bs, es, q) = (Takes-read_tx ebs).at s msg rest i e in
        let i' = IsInput-taken bs rest (rw es at i) in
        rw (relocate-read ebs msg bs q.0 q.1 i'.short)
    go (err x rest) e = refl

-- What decodes: the transaction is within the decoder's bounds, and the bytes that were taken are
-- those that the encoder writes for it.
pub Takes-tx_bsv_decode :
    (ebs : ℕ) → Takes (tx_bsv_decode ebs) (λ msg bs. IsTx ebs msg × (tx_bsv_encode msg ≡ done bs))
unfolding tx_bsv_decode
Takes-tx_bsv_decode ebs = Takes-bind (Takes-read_tx ebs) λ msg bs i q.
    let e = relocate-read ebs msg bs q.0 q.1 i.short in Takes-pure (rw e (q.0, rw append-nil q.1))

-- If an input of bytes, shorter than 2 ^ 63, decodes to a transaction, then it begins with the
-- transaction's encoding, followed by what is left, and the transaction is within the bounds.
pub tx_bsv_encode-tx_bsv_decode :
    (ebs : ℕ) (s : List ℕ) (msg : MsgTx) (rest : List ℕ)
    → IsInput s
    → tx_bsv_decode ebs s ≡ ok msg rest
    → (s ≡ written (tx_bsv_encode msg) ++ rest) × IsTx ebs msg
unfolding written
tx_bsv_encode-tx_bsv_decode ebs s msg rest i e =
    let (bs, es, q) = (Takes-tx_bsv_decode ebs).at s msg rest i e in (rw q.1 es, q.0)
