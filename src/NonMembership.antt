-- ===== src/NonMembership.antt =====
-- The sparse Merkle tree of keys that are excluded (contracts/asp-non-membership/src/lib.rs).
pub mod Defs
pub mod Insert
pub mod Delete
pub mod Smt
pub mod Facts
pub mod Search
pub mod Verify
pub mod Hashes
pub mod Rebuilt
pub mod Bits
pub mod Grow
pub mod Grown
pub mod Present
pub mod Added
pub mod Inserted
pub mod Tests
