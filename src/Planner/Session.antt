-- ===== src/Planner/Session.antt =====
-- `SpendSession` (app/crates/core/tx-planner/src/execute).
pub mod Defs
pub mod Balance
pub mod Wallet
pub mod Progress
pub mod Finish
pub mod Complete
