-- ===== src/Prover/Flows.antt =====
-- The building of a pool transaction (app/crates/core/prover/src/flows.rs, with crypto.rs).
pub mod Defs
pub mod Build
pub mod Balance
pub mod Tests
