-- ===== src/Tx/Locs.antt =====
-- PkScriptLocs gives the places of the public key scripts in the encoding.
use go_wire.Prelude.{
  drop-append, append_assoc, ◌∷◌, take, List, ℕ, ◌≡◌, arith, ◌∙◌, drop, length-append, [], ◌+◌,
  take-append, sym, ◌++◌, length, subst, All, ap,
}
use go_wire.Element.Size.{Writes-uint64, Writes-uint32}
use go_wire.Io.{done, write_each, written}
use go_wire.Io.Writes.{Writes-each, done-injective}
use go_wire.Tx.Data.{TxOut, MsgTx}
use go_wire.Tx.Encode.{
  write_tx_out, script_locs, tx_out_size, tx_bsv_encode, write_tx_in, tx_in_size, pk_script_locs,
}
use go_wire.Tx.Size.{Writes-tx_out, every_unit, InHasHash, Writes-tx_in}
use go_wire.VarBytes.{write_var_bytes}
use go_wire.VarInt.{var_int_serialize_size}
use go_wire.VarInt.Transfer.{Writes-var_int}

-- At each location the bytes are those of the output's script, and there is one for each output.
abbrev pub AtLocs : List ℕ → List ℕ → List TxOut → Type 0
AtLocs bs [] [] = Unit {0}
AtLocs bs (loc ∷ locs) (to ∷ outs) =
    (take (length to.pk_script) (drop loc bs) ≡ to.pk_script) × AtLocs bs locs outs
AtLocs bs locs outs = ⊥

abbrev front_size : TxOut → ℕ
front_size to = 8 + var_int_serialize_size (length to.pk_script)

-- The bytes of an output before its script, and then the script.
output_split :
    (to : TxOut)
    → (front : List ℕ) × (write_tx_out to ≡ done (front ++ to.pk_script))
      × (length front ≡ front_size to)
unfolding write_tx_out write_var_bytes
output_split to =
    let value = Writes-uint64 to.value in
    let count = Writes-var_int (length to.pk_script) in
    (
      value.bytes ++ count.bytes,
      rw (value.complete, count.complete, append_assoc),
      omega (arith, value.size, count.size, length-append value.bytes count.bytes),
    )

at_front :
    (pre front s post : List ℕ) (n : ℕ)
    → n ≡ length pre + length front
    → take (length s) (drop n (pre ++ ((front ++ s) ++ post))) ≡ s
at_front pre front s post n e =
    let e' : n ≡ length (pre ++ front) = omega (arith, e, length-append pre front) in
    rw
      (
        append_assoc front s post,
        ← append_assoc pre front (s ++ post),
        e',
        drop-append (pre ++ front) (s ++ post),
      )
      (take-append s post)

pub script_locs-AtLocs :
    (pre : List ℕ) (outs : List TxOut) (body post : List ℕ) (n : ℕ)
    → n ≡ length pre
    → write_each write_tx_out outs ≡ done body
    → AtLocs (pre ++ (body ++ post)) (script_locs n outs) outs
unfolding script_locs write_each
script_locs-AtLocs pre [] body post n e w = tt
script_locs-AtLocs pre (to ∷ outs) body post n e w =
    let (front, wf, lf) = output_split to in
    let later =
      Writes-each (λ t. Unit {0}) write_tx_out tx_out_size Writes-tx_out outs (every_unit outs) in
    let s = to.pk_script in
    let r = later.bytes in
    let split : body ≡ (front ++ s) ++ r = done-injective (sym w ∙ rw (wf, later.complete)) in
    let script = at_front pre front s (r ++ post) (n + front_size to) (omega (arith, e, lf)) in
    let others =
      script_locs-AtLocs (pre ++ (front ++ s)) outs r post (n + front_size to + length s)
        (omega (arith, e, lf, length-append pre (front ++ s), length-append front s))
        later.complete in
    let near : pre ++ (body ++ post) ≡ pre ++ ((front ++ s) ++ (r ++ post)) =
      rw (split, append_assoc (front ++ s) r post) in
    let far = near ∙ sym (append_assoc pre (front ++ s) (r ++ post)) in
    (
      subst (λ b. take (length s) (drop (n + front_size to) b) ≡ s) (sym near) script,
      subst (λ b. AtLocs b (script_locs (n + front_size to + length s) outs) outs) (sym far) others,
    )

-- In the encoding of a transaction whose previous hashes have 32 bytes, the bytes at each location
-- of PkScriptLocs are the public key script of that output.
pub pk_script_locs-AtLocs :
    (msg : MsgTx)
    → All InHasHash msg.tx_in
    → AtLocs (written (tx_bsv_encode msg)) (pk_script_locs msg) msg.tx_out
unfolding pk_script_locs tx_bsv_encode written
pk_script_locs-AtLocs msg h =
    let version = Writes-uint32 msg.version in
    let in_count = Writes-var_int (length msg.tx_in) in
    let ins = Writes-each InHasHash write_tx_in tx_in_size Writes-tx_in msg.tx_in h in
    let out_count = Writes-var_int (length msg.tx_out) in
    let outs =
      Writes-each (λ t. Unit {0}) write_tx_out tx_out_size Writes-tx_out msg.tx_out
        (every_unit msg.tx_out) in
    let lock_time = Writes-uint32 msg.lock_time in
    let v = version.bytes in
    let c = in_count.bytes in
    let is = ins.bytes in
    let o = out_count.bytes in
    let whole : tx_bsv_encode msg
        ≡ done ((v ++ (c ++ (is ++ o))) ++ (outs.bytes ++ lock_time.bytes)) =
      rw
        (
          version.complete, in_count.complete, ins.complete, out_count.complete, outs.complete,
          lock_time.complete,
        )
        (simp append_assoc) in
    subst (λ b. AtLocs b (pk_script_locs msg) msg.tx_out) (sym (ap written whole))
      (script_locs-AtLocs (v ++ (c ++ (is ++ o))) msg.tx_out outs.bytes lock_time.bytes _
        (omega (
          arith,
          version.size,
          in_count.size,
          ins.size,
          out_count.size,
          length-append v (c ++ (is ++ o)),
          length-append c (is ++ o),
          length-append is o,
        ))
        outs.complete)
