-- ===== src/Registry.antt =====
-- The registry of public keys (contracts/public-key-registry/src/lib.rs).
pub mod Defs
pub mod Correct
pub mod Tests
