-- ===== src/Prover.antt =====
-- The client's prover (app/crates/core/prover/src), and the tree utilities that it takes from
-- circuits/src/core.
pub mod Merkle
pub mod Sparse
pub mod Flows
