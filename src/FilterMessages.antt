-- ===== src/FilterMessages.antt =====
-- msg_filter_add.go, msg_filter_load.go and msg_merkle_block.go: the messages of bloom filtering,
-- which the protocol has from BIP0037 on.
pub mod Transfer
pub mod RoundTrip
use go_wire.Prelude.{◌∷◌, length, List, [], ltb, ◌^◌, All, ℕ, ◌≤◌, ◌<◌}
use go_wire.BlockHeader.{write_block_header, IsHeader, BlockHeader, read_block_header}
use go_wire.Counted.{read_counted, write_counted, add_bounded, Added, or_fail}
use go_wire.Element.{
  hash, read_elements, AllFit, read_element, write_element, Fits, Kind, uint32_kind,
  bloom_update_type, write_elements,
}
use go_wire.Io.{Read, ◌>>◌, pure, Put, IsByte, ◌▸◌, refuse_if, message_error, refuse_put, ◌>>=◌}
use go_wire.Limits.{max_tx_per_block, max_flags_per_merkle_block}
use go_wire.VarBytes.{read_var_bytes, write_var_bytes}

abbrev pub bip0037_version : ℕ
bip0037_version = 70001

abbrev pub max_filter_add_data_size : ℕ
max_filter_add_data_size = 520

abbrev pub max_filter_load_hash_funcs : ℕ
max_filter_load_hash_funcs = 50

abbrev pub max_filter_load_filter_size : ℕ
max_filter_load_filter_size = 36000

pub record MsgFilterAdd : Type 0 where
  pub data_bytes : List ℕ

unfoldable pub filter_add_bsv_decode : ℕ → Read MsgFilterAdd
filter_add_bsv_decode pver = do
  refuse_if (ltb pver bip0037_version) (message_error "MsgFilterAdd.Bsvdecode")
  bs ← read_var_bytes max_filter_add_data_size
  pure (record { data_bytes = bs })

unfoldable pub filter_add_bsv_encode : ℕ → MsgFilterAdd → Put
filter_add_bsv_encode pver msg =
    refuse_put (ltb pver bip0037_version) (message_error "MsgFilterAdd.BsvEncode") (
      refuse_put (ltb max_filter_add_data_size (length msg.data_bytes))
        (message_error "MsgFilterAdd.BsvEncode") (write_var_bytes msg.data_bytes))

pub record MsgFilterLoad : Type 0 where
  pub filter : List ℕ
  pub hash_funcs : ℕ
  pub tweak : ℕ
  pub flags : ℕ

abbrev pub filter_load_kinds : List Kind
filter_load_kinds = uint32_kind ∷ uint32_kind ∷ bloom_update_type ∷ []

unfoldable pub filter_load_bsv_decode : ℕ → Read MsgFilterLoad
filter_load_bsv_decode pver = do
  refuse_if (ltb pver bip0037_version) (message_error "MsgFilterLoad.Bsvdecode")
  bs ← read_var_bytes max_filter_load_filter_size
  (n, (t, (u, _))) ← read_elements filter_load_kinds
  refuse_if (ltb max_filter_load_hash_funcs n) (message_error "MsgFilterLoad.Bsvdecode")
  pure (record { filter = bs; hash_funcs = n; tweak = t; flags = u })

unfoldable pub filter_load_bsv_encode : ℕ → MsgFilterLoad → Put
filter_load_bsv_encode pver msg =
    refuse_put (ltb pver bip0037_version) (message_error "MsgFilterLoad.BsvEncode") (
      refuse_put (ltb max_filter_load_filter_size (length msg.filter))
        (message_error "MsgFilterLoad.BsvEncode")
        (refuse_put (ltb max_filter_load_hash_funcs msg.hash_funcs)
          (message_error "MsgFilterLoad.BsvEncode")
          (write_var_bytes msg.filter
            ▸ write_elements filter_load_kinds (msg.hash_funcs, (msg.tweak, (msg.flags, tt))))))

pub record MsgMerkleBlock : Type 0 where
  pub header : BlockHeader
  pub transactions : ℕ
  pub hashes : List (List ℕ)
  pub flags : List ℕ

unfoldable pub add_tx_hash : ℕ → List (List ℕ) → List ℕ → Added (List (List ℕ))
add_tx_hash ebs hashes h = add_bounded "MsgMerkleBlock.AddTxHash" (max_tx_per_block ebs) hashes h

unfoldable pub merkle_block_bsv_decode : ℕ → ℕ → Read MsgMerkleBlock
merkle_block_bsv_decode ebs pver = do
  refuse_if (ltb pver bip0037_version) (message_error "MsgMerkleBlock.Bsvdecode")
  bh ← read_block_header
  n ← read_element uint32_kind
  list ←
      read_counted "MsgMerkleBlock.Bsvdecode" (max_tx_per_block ebs) (read_element hash)
        (λ l h. or_fail (add_tx_hash ebs l h))
  bs ← read_var_bytes (max_flags_per_merkle_block ebs)
  pure (record { header = bh; transactions = n; hashes = list; flags = bs })

-- The conversion of the bounds to int changes neither, for any ebs that a uint64 holds.
unfoldable pub merkle_block_bsv_encode : ℕ → ℕ → MsgMerkleBlock → Put
merkle_block_bsv_encode ebs pver msg =
    refuse_put (ltb pver bip0037_version) (message_error "MsgMerkleBlock.BsvEncode") (
      refuse_put (ltb (max_tx_per_block ebs) (length msg.hashes))
        (message_error "MsgMerkleBlock.Bsvdecode")
        (refuse_put (ltb (max_flags_per_merkle_block ebs) (length msg.flags))
          (message_error "MsgMerkleBlock.Bsvdecode")
          (write_block_header msg.header
            ▸ write_element uint32_kind msg.transactions
            ▸ write_counted (write_element hash) msg.hashes
            ▸ write_var_bytes msg.flags)))

-- The messages that decode: fields that fit, within the bounds.
abbrev pub IsFilterLoad : MsgFilterLoad → Type 0
IsFilterLoad msg =
    ((length msg.filter ≤ max_filter_load_filter_size) × All IsByte msg.filter)
    × AllFit filter_load_kinds (msg.hash_funcs, (msg.tweak, (msg.flags, tt)))
    × (msg.hash_funcs ≤ max_filter_load_hash_funcs)

pub record IsMerkleBlock (ebs : ℕ) (msg : MsgMerkleBlock) : Type 0 where
  pub header : IsHeader msg.header
  pub transactions : msg.transactions < 2 ^ 32
  pub few : length msg.hashes ≤ max_tx_per_block ebs
  pub hashes : All (Fits hash) msg.hashes
  pub flags : (length msg.flags ≤ max_flags_per_merkle_block ebs) × All IsByte msg.flags
