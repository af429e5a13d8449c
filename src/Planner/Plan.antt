-- ===== src/Planner/Plan.antt =====
-- Transaction plans (app/crates/core/tx-planner/src/plan/mod.rs).
pub mod Defs
pub mod Chain
pub mod Assemble
pub mod Correct
pub mod Resolve
