-- ===== src/Membership.antt =====
-- The association set's membership contract (contracts/asp-membership/src/lib.rs): a Merkle tree of
-- members.
pub mod Defs
pub mod Correct
pub mod Tests
