-- ===== src/Tx.antt =====
-- msg_tx.go, by parts: the data, the buffer that the scripts of a decoded transaction share, the
-- decoder and the encoder, and what is proved of them.
pub mod Data
pub mod Scripts
pub mod Decode
pub mod Encode
pub mod Size
pub mod Transfer
pub mod Copy
pub mod Locs
pub mod ArenaDecode
