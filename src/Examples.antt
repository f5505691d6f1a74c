-- ===== src/Examples.antt =====
-- Runs on concrete inputs, and the theorems at concrete inputs.
mod Wire
mod Txs
mod Blocks
mod Messages
mod Headers
mod Framing
mod Extended
mod Peers
