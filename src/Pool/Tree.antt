-- ===== src/Pool/Tree.antt =====
-- The commitment tree of the pool (contracts/pool/src/merkle_with_history.rs).
pub mod Defs
pub mod History
pub mod Correct
pub mod Init
mod Tests
