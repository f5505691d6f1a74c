-- ===== src/Block/Transfer.antt =====
-- Blocks on the wire: what the encoder writes decodes to the block, and what decodes is what the
-- encoder writes.
use go_wire.Prelude.{
  append-nil, ◌++◌, length, arith, ◌^◌, ◌≡◌, le→ltb, refl, ltb, ℕ, List, ltb→le, ◌<◌,
}
use go_wire.Block.{MsgBlock, block_bsv_encode, block_bsv_decode, IsBlock}
use go_wire.BlockHeader.{read_block_header}
use go_wire.BlockHeader.Transfer.{RoundTrips-block_header, Takes-read_block_header}
use go_wire.Io.{
  read_times, pure, message_error, IsInput, ◌>>=◌, done, ◌>>◌, ok, written, Read, refuse_if,
}
use go_wire.Io.Agrees.{
  Agrees-bind, Agrees-Takes, Agrees-RoundTrips, Agrees-pass, Agrees-same, Agrees-pure, Agrees,
}
use go_wire.Io.Reads.{
  RoundTrips, RoundTrips-pass, RoundTrips-last, RoundTrips-each, RoundTrips-bind,
}
use go_wire.Io.Takes.{Takes-times, Takes, Takes-pure, Takes-pass, Takes-bind}
use go_wire.Limits.{max_block_payload, max_tx_per_block}
use go_wire.Tx.ArenaDecode.Agreement.{read_tx-Agrees, times-Agrees}
use go_wire.Tx.Data.{IsTx}
use go_wire.Tx.Decode.{read_tx}
use go_wire.Tx.Encode.{tx_bsv_encode}
use go_wire.Tx.Transfer.{Takes-read_tx, RoundTrips-read_tx}
use go_wire.VarInt.{read_var_int}
use go_wire.VarInt.Transfer.{Takes-read_var_int, RoundTrips-var_int}

-- Decoding with no arena and no copying, which agrees with the decoder of the program.
read_block : ℕ → Read MsgBlock
read_block ebs = do
  header ← read_block_header
  tx_count ← read_var_int
  refuse_if (ltb (max_tx_per_block ebs) tx_count) (message_error "MsgBlock.Bsvdecode")
  txs ← read_times tx_count (read_tx ebs)
  pure (record { header = header; transactions = txs })

block-Agrees : (ebs : ℕ) → Agrees (block_bsv_decode ebs) (read_block ebs) (λ a b. a ≡ b)
unfolding block_bsv_decode read_block
block-Agrees ebs = Agrees-same read_block_header _ _ λ header.
    Agrees-same read_var_int _ _ λ tx_count. Agrees-pass _ _ _ refl (
      Agrees-bind _ _ (times-Agrees _ _ (read_tx-Agrees ebs) tx_count _)
        λ p txs e. Agrees-pure (cc))

pub max_tx_per_block_fits : (ebs : ℕ) → ebs < 2 ^ 64 → max_tx_per_block ebs < 2 ^ 64
unfolding max_tx_per_block max_block_payload
max_tx_per_block_fits ebs h = omega arith

RoundTrips-read_block :
    (ebs : ℕ) (msg : MsgBlock)
    → ebs < 2 ^ 64
    → IsBlock ebs msg
    → RoundTrips (block_bsv_encode msg) (read_block ebs) msg
unfolding block_bsv_encode read_block
RoundTrips-read_block ebs msg u h =
    RoundTrips-bind _ (RoundTrips-block_header msg.header h.header) (
      RoundTrips-bind _
        (RoundTrips-var_int (length msg.transactions)
          (omega (arith, h.few, max_tx_per_block_fits ebs u)))
        (RoundTrips-pass _ _ (le→ltb _ _ h.few) (
          RoundTrips-last _
            (RoundTrips-each (IsTx ebs) tx_bsv_encode (read_tx ebs) (RoundTrips-read_tx ebs)
              msg.transactions h.transactions)
            (λ s. refl))))

-- For every excessive block size that a uint64 holds, a block within the decoder's bounds is encoded
-- without an error, and its encoding, followed by anything, decodes to it and leaves what follows.
pub block_bsv_decode-block_bsv_encode :
    (ebs : ℕ) (msg : MsgBlock)
    → ebs < 2 ^ 64
    → IsBlock ebs msg
    → RoundTrips (block_bsv_encode msg) (block_bsv_decode ebs) msg
block_bsv_decode-block_bsv_encode ebs msg u h =
    Agrees-RoundTrips (block-Agrees ebs) (RoundTrips-read_block ebs msg u h)

Takes-read_block :
    (ebs : ℕ)
    → Takes (read_block ebs) (λ msg bs. IsBlock ebs msg × (block_bsv_encode msg ≡ done bs))
unfolding block_bsv_encode read_block
Takes-read_block ebs = Takes-bind Takes-read_block_header λ header b0 i0 h.
    Takes-bind Takes-read_var_int λ tx_count b1 i1 c. Takes-pass _ _ λ few.
      Takes-bind (Takes-times (IsTx ebs) tx_bsv_encode (read_tx ebs) (Takes-read_tx ebs) tx_count)
        λ txs b2 i2 t. Takes-pure (
          record { header = h.0; few = omega (arith, t.0, ltb→le _ _ few); transactions = t.1 },
          rw (t.0, h.1, c.1, t.2, append-nil),
        )

-- If an input of bytes, shorter than 2 ^ 63, decodes to a block, then it begins with the block's
-- encoding, followed by what is left, and the block is within the bounds.
pub block_bsv_encode-block_bsv_decode :
    (ebs : ℕ) (s : List ℕ) (msg : MsgBlock) (rest : List ℕ)
    → IsInput s
    → block_bsv_decode ebs s ≡ ok msg rest
    → (s ≡ written (block_bsv_encode msg) ++ rest) × IsBlock ebs msg
unfolding written
block_bsv_encode-block_bsv_decode ebs s msg rest i e =
    let (bs, es, q) = (Agrees-Takes (block-Agrees ebs) (Takes-read_block ebs)).at s msg rest i e in
    (rw q.1 es, q.0)
