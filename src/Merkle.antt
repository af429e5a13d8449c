-- ===== src/Merkle.antt =====
-- The Merkle trees of the contracts: what a root is, and the incremental computation along a path.
pub mod Spec
pub mod Path
pub mod Incremental
pub mod Leaves
pub mod Empty
