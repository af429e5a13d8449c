-- ===== src/Payroll/Withdraw.antt =====
-- The entry point `withdraw`, an employee's withdrawal.
pub mod Defs
pub mod Phases
pub mod Effect
