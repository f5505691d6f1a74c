-- ===== src/ExtendedTx.antt =====
-- msg_extended_tx.go, by parts: transactions in the extended format, whose inputs carry the output
-- that they spend.
pub mod Data
pub mod Decode
pub mod Encode
pub mod Transfer
pub mod Size
pub mod Taken
pub mod Copy
