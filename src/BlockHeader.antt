-- ===== src/BlockHeader.antt =====
-- block_header.go. A hash of chainhash is its 32 bytes; the digest of the header is an argument.
pub mod Transfer
use go_wire.Prelude.{ℕ, ◌%◌, ◌^◌, ◌+◌, ◌*◌, List, [], ◌∷◌}
use go_wire.Io.{Read, Put, ◌>>=◌, pure, written}
use go_wire.Limits.{hash_size}
use go_wire.Element.{
  Kind, Values, AllFit, int32, hash, uint32_time, uint32_kind, read_elements, write_elements,
}

abbrev pub max_block_header_payload : ℕ
max_block_header_payload = 16 + hash_size * 2

abbrev pub block_header_len : ℕ
block_header_len = 80

pub record BlockHeader : Type 0 where
  pub version : ℕ
  pub prev_block : List ℕ
  pub merkle_root : List ℕ
  -- the two's complement pattern of the Unix seconds
  pub timestamp : ℕ
  pub bits : ℕ
  pub nonce : ℕ

abbrev pub header_kinds : List Kind
header_kinds = int32 ∷ hash ∷ hash ∷ uint32_time ∷ uint32_kind ∷ uint32_kind ∷ []

abbrev pub header_values : BlockHeader → Values header_kinds
header_values h =
    (h.version, (h.prev_block, (h.merkle_root, (h.timestamp, (h.bits, (h.nonce, tt))))))

abbrev pub header_of : Values header_kinds → BlockHeader
header_of (version, (prev, (root, (time, (bits, (nonce, _)))))) = record {
  version = version;
  prev_block = prev;
  merkle_root = root;
  timestamp = time;
  bits = bits;
  nonce = nonce;
}

unfoldable pub read_block_header : Read BlockHeader
read_block_header = do vs ← read_elements header_kinds; pure (header_of vs)

-- `sec := uint32(bh.Timestamp.Unix())` is the conversion of the element `uint32_time`.
unfoldable pub write_block_header : BlockHeader → Put
write_block_header bh = write_elements header_kinds (header_values bh)

-- BlockHash, for the double SHA-256 of chainhash.
unfoldable pub block_hash : (List ℕ → List ℕ) → BlockHeader → List ℕ
block_hash double_hash_h h = double_hash_h (written (write_block_header h))

-- Every field fits its type, and the time fits the 32 bits that it has on the wire.
abbrev pub IsHeader : BlockHeader → Type 0
IsHeader h = AllFit header_kinds (header_values h)
