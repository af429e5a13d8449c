-- ===== src/Payroll/Run.antt =====
-- `run_payroll`: its checks, its writes and the escrow transfer, phase by phase in the order of the
-- source.
pub mod Checks
pub mod Effects
pub mod Exec
pub mod Phases
pub mod Commitments
pub mod Effect
