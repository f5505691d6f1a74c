-- ===== src/Locator.antt =====
-- msg_get_blocks.go and msg_get_headers.go: the two requests that carry block locator hashes.
pub mod Transfer
pub mod RoundTrip
use go_wire.Prelude.{List, ◌≤◌, ltb, ℕ, length, All}
use go_wire.Counted.{add_bounded, read_counted, write_counted, or_fail, Added, or_keep}
use go_wire.Element.{hash, read_element, uint32_kind, Fits, write_element}
use go_wire.Io.{Put, message_error, Read, ◌>>◌, ◌>>=◌, refuse_put, pure, ◌▸◌}

abbrev pub max_block_locators_per_msg : ℕ
max_block_locators_per_msg = 500

pub record MsgGetBlocks : Type 0 where
  pub protocol_version : ℕ
  pub block_locator_hashes : List (List ℕ)
  pub hash_stop : List ℕ

unfoldable pub get_blocks_add_hash : List (List ℕ) → List ℕ → Added (List (List ℕ))
get_blocks_add_hash hashes h =
    add_bounded "MsgGetBlocks.AddBlockLocatorHash" max_block_locators_per_msg hashes h

-- The error of AddBlockLocatorHash is ignored here.
unfoldable pub get_blocks_bsv_decode : Read MsgGetBlocks
get_blocks_bsv_decode = do
  version ← read_element uint32_kind
  hashes ←
      read_counted "MsgGetBlocks.Bsvdecode" max_block_locators_per_msg (read_element hash)
        (λ l h. or_keep l (get_blocks_add_hash l h))
  stop ← read_element hash
  pure (record { protocol_version = version; block_locator_hashes = hashes; hash_stop = stop })

unfoldable pub get_blocks_bsv_encode : MsgGetBlocks → Put
get_blocks_bsv_encode msg =
    refuse_put (ltb max_block_locators_per_msg (length msg.block_locator_hashes))
      (message_error "MsgGetBlocks.BsvEncode")
      (write_element uint32_kind msg.protocol_version
        ▸ write_counted (write_element hash) msg.block_locator_hashes
        ▸ write_element hash msg.hash_stop)

pub record MsgGetHeaders : Type 0 where
  pub protocol_version : ℕ
  pub block_locator_hashes : List (List ℕ)
  pub hash_stop : List ℕ

unfoldable pub get_headers_add_hash : List (List ℕ) → List ℕ → Added (List (List ℕ))
get_headers_add_hash hashes h =
    add_bounded "MsgGetHeaders.AddBlockLocatorHash" max_block_locators_per_msg hashes h

unfoldable pub get_headers_bsv_decode : Read MsgGetHeaders
get_headers_bsv_decode = do
  version ← read_element uint32_kind
  hashes ←
      read_counted "MsgGetHeaders.Bsvdecode" max_block_locators_per_msg (read_element hash)
        (λ l h. or_fail (get_headers_add_hash l h))
  stop ← read_element hash
  pure (record { protocol_version = version; block_locator_hashes = hashes; hash_stop = stop })

unfoldable pub get_headers_bsv_encode : MsgGetHeaders → Put
get_headers_bsv_encode msg =
    refuse_put (ltb max_block_locators_per_msg (length msg.block_locator_hashes))
      (message_error "MsgGetHeaders.BsvEncode")
      (write_element uint32_kind msg.protocol_version
        ▸ write_counted (write_element hash) msg.block_locator_hashes
        ▸ write_element hash msg.hash_stop)

-- What both messages may carry: a 32-bit version, at most 500 hashes, and the hash to stop at.
abbrev pub IsLocator : ℕ → List (List ℕ) → List ℕ → Type 0
IsLocator version hashes stop =
    Fits uint32_kind version
    × (length hashes ≤ max_block_locators_per_msg)
    × All (Fits hash) hashes
    × Fits hash stop
