-- ===== src/Block.antt =====
-- msg_block.go: blocks. A transaction is decoded with the arena of the block, and by the other
-- decoder where its place in the input is recorded.
pub mod Transfer
pub mod Size
pub mod Locs
use go_wire.Prelude.{◌++◌, ◌≤◌, ltb, ◌-◌, ℕ, suc, ◌∷◌, zero, List, [], length, All, ◌+◌, ◌*◌, map}
use go_wire.Arena.{new_block_arena_sized}
use go_wire.BlockHeader.{
  read_block_header, BlockHeader, block_header_len, IsHeader, block_hash, write_block_header,
}
use go_wire.Io.{◌▸◌, pure, write_each, Put, ok, Read, ◌>>◌, message_error, ◌>>=◌, refuse_if}
use go_wire.Io.Writes.{sum_of}
use go_wire.Limits.{max_tx_per_block}
use go_wire.Tx.ArenaDecode.{tx_bsv_decode_with_arena, read_times_with}
use go_wire.Tx.Data.{IsTx, MsgTx}
use go_wire.Tx.Decode.{tx_bsv_decode}
use go_wire.Tx.Encode.{tx_bsv_encode, serialize_size, tx_hash}
use go_wire.VarInt.{write_var_int, read_var_int, var_int_serialize_size}

abbrev pub arena_script_hint_per_tx : ℕ
arena_script_hint_per_tx = 256

pub record TxLoc : Type 0 where
  pub tx_start : ℕ
  pub tx_len : ℕ

pub record MsgBlock : Type 0 where
  pub header : BlockHeader
  pub transactions : List MsgTx

pub new_msg_block : BlockHeader → MsgBlock
new_msg_block block_header = record { header = block_header; transactions = [] }

pub add_transaction : MsgBlock → MsgTx → MsgBlock
add_transaction msg tx = record msg { transactions = msg.transactions ++ (tx ∷ []) }

pub clear_transactions : MsgBlock → MsgBlock
clear_transactions msg = record msg { transactions = [] }

-- Bsvdecode, and Deserialize, which calls it. The size hint fits an int for every ebs below 2 ^ 58.
unfoldable pub block_bsv_decode : ℕ → Read MsgBlock
block_bsv_decode ebs = do
  header ← read_block_header
  tx_count ← read_var_int
  refuse_if (ltb (max_tx_per_block ebs) tx_count) (message_error "MsgBlock.Bsvdecode")
  (txs, arena) ←
      read_times_with (tx_bsv_decode_with_arena ebs) tx_count
        (new_block_arena_sized (tx_count * arena_script_hint_per_tx))
  pure (record { header = header; transactions = txs })

-- `fullLen - r.Len()`
unfoldable pub position : ℕ → Read ℕ
position full_len s = ok (full_len - length s) s

unfoldable pub read_with_locs : ℕ → ℕ → ℕ → Read (List (MsgTx × TxLoc))
read_with_locs ebs full_len zero = pure []
read_with_locs ebs full_len (suc n) = do
  start ← position full_len
  tx ← tx_bsv_decode ebs
  end ← position full_len
  rest ← read_with_locs ebs full_len n
  pure ((tx, record { tx_start = start; tx_len = end - start }) ∷ rest)

-- DeserializeTxLoc, for a buffer that held `full_len` bytes at the call.
unfoldable pub deserialize_after : ℕ → ℕ → Read (MsgBlock × List TxLoc)
deserialize_after ebs full_len = do
  header ← read_block_header
  tx_count ← read_var_int
  refuse_if (ltb (max_tx_per_block ebs) tx_count) (message_error "MsgBlock.DeserializeTxLoc")
  found ← read_with_locs ebs full_len tx_count
  pure (record { header = header; transactions = map (λ p. p.0) found }, map (λ p. p.1) found)

unfoldable pub deserialize_tx_loc : ℕ → Read (MsgBlock × List TxLoc)
deserialize_tx_loc ebs r = deserialize_after ebs (length r) r

-- BsvEncode, and Serialize, which calls it.
unfoldable pub block_bsv_encode : MsgBlock → Put
block_bsv_encode msg =
    write_block_header msg.header
    ▸ write_var_int (length msg.transactions)
    ▸ write_each tx_bsv_encode msg.transactions

unfoldable pub block_serialize_size : MsgBlock → ℕ
block_serialize_size msg =
    block_header_len
    + var_int_serialize_size (length msg.transactions)
    + sum_of serialize_size msg.transactions

-- BlockHash and TxHashes, for the digests of chainhash and of the standard library.
pub msg_block_hash : (List ℕ → List ℕ) → MsgBlock → List ℕ
msg_block_hash double_hash_h msg = block_hash double_hash_h msg.header

pub tx_hashes : (List ℕ → List ℕ) → MsgBlock → List (List ℕ)
tx_hashes sha256 msg = map (tx_hash sha256) msg.transactions

-- What a block must satisfy to be decoded: its parts are within the decoder's bounds.
pub record IsBlock (ebs : ℕ) (msg : MsgBlock) : Type 0 where
  pub header : IsHeader msg.header
  pub few : length msg.transactions ≤ max_tx_per_block ebs
  pub transactions : All (IsTx ebs) msg.transactions
