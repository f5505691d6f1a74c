-- ===== src/ExtendedTx/Size.antt =====
-- The sizes and offsets that are computed leave out the six bytes of the marker.
use go_wire.Prelude.{
  List, sym, arith, map, ℕ, ◌++◌, [], refl, subst, All, ◌+◌, ◌≡◌, ap, length, ◌∷◌, ◌∙◌,
}
use go_wire.Binary.{put_uint32, little}
use go_wire.Element.Size.{Writes-uint64, Writes-uint32}
use go_wire.ExtendedTx.Data.{MsgExtendedTx, ExtendedTxIn}
use go_wire.ExtendedTx.Decode.{ef_header}
use go_wire.ExtendedTx.Encode.{
  extended_serialize_size, extended_tx_in_size, extended_tx_bsv_encode, write_extended_tx_in,
  extended_pk_script_locs,
}
use go_wire.Io.{written, write_each, done, ◌▸◌}
use go_wire.Io.Writes.{length-written, Writes, sum_of, Writes-done, Writes-▸, Writes-each, ▸-assoc}
use go_wire.Tx.Data.{TxOut}
use go_wire.Tx.Encode.{script_locs, write_tx_out, tx_out_size}
use go_wire.Tx.Locs.{AtLocs, script_locs-AtLocs}
use go_wire.Tx.Size.{HasHash, every_unit, Writes-tx_out, Writes-out_point, Writes-size}
use go_wire.VarBytes.Transfer.{Writes-var_bytes}
use go_wire.VarInt.{var_int_serialize_size}
use go_wire.VarInt.Transfer.{Writes-var_int}

abbrev pub SpendsHash : ExtendedTxIn → Type 0
SpendsHash ti = HasHash ti.previous_out_point

pub Writes-extended_tx_in :
    (ti : ExtendedTxIn) → SpendsHash ti → Writes (write_extended_tx_in ti) (extended_tx_in_size ti)
unfolding write_extended_tx_in extended_tx_in_size
Writes-extended_tx_in ti h =
    Writes-size
      (Writes-▸ (Writes-out_point ti.previous_out_point h) (
        Writes-▸ (Writes-var_bytes ti.signature_script) (
          Writes-▸ (Writes-uint32 ti.sequence) (
            Writes-▸ (Writes-uint64 ti.previous_tx_satoshis)
              (Writes-var_bytes ti.previous_tx_script)))))
      (omega arith)

Writes-ins :
    (ins : List ExtendedTxIn)
    → All SpendsHash ins
    → Writes (write_each write_extended_tx_in ins) (sum_of extended_tx_in_size ins)
Writes-ins ins h =
    Writes-each SpendsHash write_extended_tx_in extended_tx_in_size Writes-extended_tx_in ins h

pub Writes-outs :
    (outs : List TxOut) → Writes (write_each write_tx_out outs) (sum_of tx_out_size outs)
Writes-outs outs =
    Writes-each (λ to. Unit {0}) write_tx_out tx_out_size Writes-tx_out outs (every_unit outs)

pub Writes-extended_tx :
    (msg : MsgExtendedTx)
    → All SpendsHash msg.tx_in
    → Writes (extended_tx_bsv_encode msg) (extended_serialize_size msg + 6)
unfolding extended_tx_bsv_encode extended_serialize_size
Writes-extended_tx msg h =
    Writes-size
      (Writes-▸ (Writes-uint32 msg.version) (
        Writes-▸ (Writes-done (0x00 ∷ ef_header)) (
          Writes-▸ (Writes-var_int (length msg.tx_in)) (
            Writes-▸ (Writes-ins msg.tx_in h) (
              Writes-▸ (Writes-var_int (length msg.tx_out))
                (Writes-▸ (Writes-outs msg.tx_out) (Writes-uint32 msg.lock_time)))))))
      (omega arith)

-- The encoding of an extended transaction whose previous hashes have 32 bytes is six bytes longer
-- than SerializeSize says.
pub length-extended_tx_bsv_encode :
    (msg : MsgExtendedTx)
    → All SpendsHash msg.tx_in
    → length (written (extended_tx_bsv_encode msg)) ≡ extended_serialize_size msg + 6
length-extended_tx_bsv_encode msg h = length-written (Writes-extended_tx msg h)

script_locs-shift :
    (n k : ℕ) (outs : List TxOut) → map (λ l. l + k) (script_locs n outs) ≡ script_locs (n + k) outs
unfolding script_locs
script_locs-shift n k [] = refl
script_locs-shift n k (to ∷ outs) =
    let v = var_int_serialize_size (length to.pk_script) in
    let e : n + (8 + v) + k ≡ n + k + (8 + v) = omega arith in
    let e' : n + (8 + v) + length to.pk_script + k ≡ n + k + (8 + v) + length to.pk_script =
      omega arith in
    rw (script_locs-shift (n + (8 + v) + length to.pk_script) k outs, e, e') refl

-- In the encoding of an extended transaction whose previous hashes have 32 bytes, the bytes six bytes
-- behind each location of PkScriptLocs are the public key script of that output.
pub extended_pk_script_locs-AtLocs :
    (msg : MsgExtendedTx)
    → All SpendsHash msg.tx_in
    → AtLocs
        (written (extended_tx_bsv_encode msg))
        (map (λ l. l + 6) (extended_pk_script_locs msg))
        msg.tx_out
unfolding extended_pk_script_locs extended_tx_bsv_encode written
extended_pk_script_locs-AtLocs msg h =
    let version = Writes-uint32 msg.version in
    let in_count = Writes-var_int (length msg.tx_in) in
    let ins = Writes-ins msg.tx_in h in
    let out_count = Writes-var_int (length msg.tx_out) in
    let front =
      Writes-▸ version
        (Writes-▸ (Writes-done (0x00 ∷ ef_header)) (Writes-▸ in_count (Writes-▸ ins out_count))) in
    let n =
      4
      + var_int_serialize_size (length msg.tx_in)
      + var_int_serialize_size (length msg.tx_out)
      + sum_of extended_tx_in_size msg.tx_in
      + 6 in
    let outs = Writes-outs msg.tx_out in
    let lock_time = Writes-uint32 msg.lock_time in
    let whole : extended_tx_bsv_encode msg ≡ done (front.bytes ++ (outs.bytes ++ lock_time.bytes)) =
      simp ▸-assoc at (
        ap (λ p. p ▸ (write_each write_tx_out msg.tx_out ▸ put_uint32 little msg.lock_time))
          front.complete)
      ∙ rw (outs.complete, lock_time.complete) refl in
    rw (script_locs-shift _ 6 msg.tx_out) (
      subst (λ b. AtLocs b (script_locs n msg.tx_out) msg.tx_out) (sym (ap written whole))
        (script_locs-AtLocs front.bytes msg.tx_out outs.bytes lock_time.bytes _
          (omega (arith, front.size)) outs.complete))
