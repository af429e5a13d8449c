-- ===== src/Payroll.antt =====
-- The payroll contract (contracts/payroll/src/payroll.rs): its state, its entry points, and what
-- they guarantee.
pub mod State
pub mod Admin
pub mod Run
pub mod Withdraw
pub mod Contract
mod Tests
