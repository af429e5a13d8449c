-- ===== src/Pool/Transact.antt =====
-- The entry point `transact`.
pub mod Defs
pub mod Phases
pub mod Effect
pub mod Settle
pub mod Ready
pub mod Value
