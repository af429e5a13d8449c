-- ===== src/Pool.antt =====
-- The privacy pool contract (contracts/pool/src): its Merkle tree with a history of roots, and the
-- shielded transactions.
pub mod Tree
pub mod State
pub mod Amounts
pub mod Verify
pub mod Transact
pub mod Admin
pub mod Contract
pub mod Tests
