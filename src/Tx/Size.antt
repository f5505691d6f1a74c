-- ===== src/Tx/Size.antt =====
-- The encoder writes as many bytes as SerializeSize says.
use go_wire.Prelude.{ℕ, ◌+◌, ◌≤◌, ◌≡◌, List, [], ◌∷◌, length, length-append, map, subst, arith, All}
use go_wire.Element.Size.{Writes-bytes, Writes-uint64, Writes-uint32}
use go_wire.Io.{Put}
use go_wire.Io.Writes.{Writes, Writes-▸, Writes-each, sum_of}
use go_wire.Tx.Data.{OutPoint, TxIn, TxOut, MsgTx}
use go_wire.Tx.Encode.{
  write_out_point, write_tx_in, write_tx_out, tx_bsv_encode, tx_in_size, tx_out_size,
  serialize_size,
}
use go_wire.Tx.Scripts.{in_scripts, out_scripts}
use go_wire.Tx.Scripts.Relocate.{joined}
use go_wire.VarBytes.Transfer.{Writes-var_bytes}
use go_wire.VarInt.Transfer.{Writes-var_int}

pub Writes-size : {p : Put} {m n : ℕ} → Writes p m → m ≡ n → Writes p n
Writes-size {p = p} h e = subst (λ k. Writes p k) e h

abbrev pub HasHash : OutPoint → Type 0
HasHash op = length op.hash ≡ 32

pub Writes-out_point : (op : OutPoint) → HasHash op → Writes (write_out_point op) 36
unfolding write_out_point
Writes-out_point op h = Writes-▸ (Writes-bytes 32 op.hash h) (Writes-uint32 op.index)

abbrev pub InHasHash : TxIn → Type 0
InHasHash ti = HasHash ti.previous_out_point

pub Writes-tx_in : (ti : TxIn) → InHasHash ti → Writes (write_tx_in ti) (tx_in_size ti)
unfolding write_tx_in tx_in_size
Writes-tx_in ti h =
    Writes-size
      (Writes-▸ (Writes-out_point ti.previous_out_point h)
        (Writes-▸ (Writes-var_bytes ti.signature_script) (Writes-uint32 ti.sequence)))
      (omega arith)

pub Writes-tx_out : (to : TxOut) → Unit {0} → Writes (write_tx_out to) (tx_out_size to)
unfolding write_tx_out tx_out_size
Writes-tx_out to _ =
    Writes-size (Writes-▸ (Writes-uint64 to.value) (Writes-var_bytes to.pk_script)) (omega arith)

pub every_unit : (outs : List TxOut) → All (λ (to : TxOut). Unit {0}) outs
every_unit [] = tt
every_unit (to ∷ outs) = (tt, every_unit outs)

-- The encoding of a transaction whose previous hashes have 32 bytes is as long as SerializeSize says.
pub Writes-tx :
    (msg : MsgTx) → All InHasHash msg.tx_in → Writes (tx_bsv_encode msg) (serialize_size msg)
unfolding tx_bsv_encode serialize_size
Writes-tx msg h =
    Writes-size
      (Writes-▸ (Writes-uint32 msg.version) (
        Writes-▸ (Writes-var_int (length msg.tx_in)) (
          Writes-▸ (Writes-each InHasHash write_tx_in tx_in_size Writes-tx_in msg.tx_in h) (
            Writes-▸ (Writes-var_int (length msg.tx_out)) (
              Writes-▸
                (Writes-each (λ to. Unit {0}) write_tx_out tx_out_size Writes-tx_out msg.tx_out
                  (every_unit msg.tx_out))
                (Writes-uint32 msg.lock_time))))))
      (omega arith)

joined_in-le :
    (ins : List TxIn) → length (joined (map (λ t. t.signature_script) ins)) ≤ sum_of tx_in_size ins
unfolding sum_of tx_in_size
joined_in-le [] = omega arith
joined_in-le (ti ∷ ins) = omega (
  arith,
  joined_in-le ins,
  length-append ti.signature_script (joined (map (λ (t : TxIn). t.signature_script) ins)),
)

pub joined_out-le :
    (outs : List TxOut) → length (joined (map (λ t. t.pk_script) outs)) ≤ sum_of tx_out_size outs
unfolding sum_of tx_out_size
joined_out-le [] = omega arith
joined_out-le (to ∷ outs) = omega (
  arith,
  joined_out-le outs,
  length-append to.pk_script (joined (map (λ (t : TxOut). t.pk_script) outs)),
)

-- All scripts together are no longer than the encoding.
pub scripts-le-serialize_size :
    (msg : MsgTx)
    → length (joined (in_scripts msg)) + length (joined (out_scripts msg)) ≤ serialize_size msg
unfolding serialize_size
scripts-le-serialize_size msg = omega (arith, joined_in-le msg.tx_in, joined_out-le msg.tx_out)
