-- ===== src/Prover/Sparse.antt =====
-- The client's sparse Merkle tree (app/crates/core/prover/src/sparse_merkle.rs).
pub mod Defs
pub mod Correct
pub mod Agree
pub mod Tests
