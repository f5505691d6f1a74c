-- ===== src/Block/Size.antt =====
-- The encoder of a block writes as many bytes as SerializeSize says.
use go_wire.Prelude.{length, arith, ◌≡◌, ℕ}
use go_wire.Block.{MsgBlock, block_bsv_encode, block_serialize_size, IsBlock}
use go_wire.BlockHeader.Transfer.{Writes-block_header}
use go_wire.Io.{written}
use go_wire.Io.Writes.{Writes, Writes-each, length-written, Writes-▸}
use go_wire.Tx.Data.{IsTx, MsgTx}
use go_wire.Tx.Encode.{tx_bsv_encode, serialize_size}
use go_wire.Tx.Size.{Writes-tx}
use go_wire.Tx.Transfer.{ins_have_hashes}
use go_wire.VarInt.Transfer.{Writes-var_int}

pub hashes_known :
    (ebs : ℕ) (tx : MsgTx) → IsTx ebs tx → Writes (tx_bsv_encode tx) (serialize_size tx)
hashes_known ebs tx h = Writes-tx tx (ins_have_hashes ebs tx.tx_in h.ins)

-- The encoding of a block within the decoder's bounds is as long as SerializeSize says.
pub length-block_bsv_encode :
    (ebs : ℕ) (msg : MsgBlock)
    → IsBlock ebs msg
    → length (written (block_bsv_encode msg)) ≡ block_serialize_size msg
unfolding block_bsv_encode block_serialize_size
length-block_bsv_encode ebs msg h =
    let w = Writes-▸ (Writes-block_header msg.header h.header) (
      Writes-▸ (Writes-var_int (length msg.transactions)) (
        Writes-each (IsTx ebs) tx_bsv_encode serialize_size (hashes_known ebs) msg.transactions
          h.transactions)) in
    omega (arith, length-written w)
