-- ===== src/Exchange.antt =====
-- Signer and initiator together: what one makes and the other reads.
pub mod Parameters
pub mod Ack
pub mod Payload
pub mod Signed
pub mod Result
pub mod Begun
pub mod Piece
