-- ===== src/Prover/Merkle.antt =====
-- The Merkle trees of the client (app/crates/core/prover/src/merkle.rs, circuits/src/core/merkle.rs).
pub mod Defs
pub mod Levels
pub mod Prefix
pub mod Siblings
pub mod Proof
pub mod Full
pub mod Same
pub mod Client
pub mod Tests
