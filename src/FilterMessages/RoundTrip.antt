-- ===== src/FilterMessages/RoundTrip.antt =====
-- What the messages of bloom filtering read and write.
use go_wire.Prelude.{◌^◌, ℕ, false, ltb, ◌<◌, ◌≡◌}
use go_wire.FilterMessages.{
  MsgFilterLoad, IsFilterLoad, merkle_block_bsv_encode, MsgMerkleBlock, filter_load_bsv_decode,
  filter_load_bsv_encode, merkle_block_bsv_decode, bip0037_version, IsMerkleBlock,
}
use go_wire.FilterMessages.Transfer.{
  merkle_block_bsv_decode-IsCodec, filter_load_bsv_decode-IsCodec,
}
use go_wire.Io.Reads.{RoundTrips}

-- A filterload message with at most 36000 filter bytes, at most 50 hash functions, a 32-bit
-- tweak and a flag byte, in a version from BIP0037 on, is encoded without an error, and its
-- encoding, followed by anything, decodes to it and leaves what follows.
pub filter_load_bsv_decode-filter_load_bsv_encode :
    (pver : ℕ) (msg : MsgFilterLoad)
    → (ltb pver bip0037_version ≡ false) × IsFilterLoad msg
    → RoundTrips (filter_load_bsv_encode pver msg) (filter_load_bsv_decode pver) msg
filter_load_bsv_decode-filter_load_bsv_encode pver msg h =
    (filter_load_bsv_decode-IsCodec pver).reads_back msg h

-- For every excessive block size that a uint64 holds, a merkleblock message within the decoder's
-- bounds, in a version from BIP0037 on, is encoded without an error, and its encoding, followed
-- by anything, decodes to it and leaves what follows.
pub merkle_block_bsv_decode-merkle_block_bsv_encode :
    (ebs pver : ℕ) (msg : MsgMerkleBlock)
    → ebs < 2 ^ 64
    → (ltb pver bip0037_version ≡ false) × IsMerkleBlock ebs msg
    → RoundTrips (merkle_block_bsv_encode ebs pver msg) (merkle_block_bsv_decode ebs pver) msg
merkle_block_bsv_decode-merkle_block_bsv_encode ebs pver msg u h =
    (merkle_block_bsv_decode-IsCodec ebs pver u).reads_back msg h
