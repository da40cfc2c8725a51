-- ===== src/Block.antt =====
-- packages/block
pub mod Limits
pub mod Merkle
pub mod Serialization
