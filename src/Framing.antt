-- ===== src/Framing.antt =====
-- message.go, by parts: writing a message behind its header, and reading one.
pub mod Utf8
pub mod Discard
pub mod Write
pub mod Receive
pub mod CommandBytes
pub mod Sent
pub mod Aligned
pub mod Agreement
pub mod Sequence
pub mod Checked
pub mod Unknown
