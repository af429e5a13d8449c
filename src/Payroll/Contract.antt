-- ===== src/Payroll/Contract.antt =====
-- The payroll contract as a state machine: every entry point that writes, any order of invocations.
pub mod Defs
pub mod Frame
pub mod Invariant
pub mod Safety
pub mod Authority
pub mod Escrow
