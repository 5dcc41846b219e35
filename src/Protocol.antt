-- ===== src/Protocol.antt =====
-- src/protocol.rs: the USB/IP wire protocol of the client side. `Types` has the constants and the
-- data, `Requests` what the client sends, `Replies` what it reads, `Iso` the isochronous unpacking;
-- the other children hold the proofs.
pub mod Types
pub mod Requests
pub mod Replies
pub mod Iso
pub mod Unpacked
pub mod Layout
pub mod Chunks
pub mod Headers
pub mod Payload
pub mod Names
pub mod Records
pub mod Devices
