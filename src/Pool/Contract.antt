-- ===== src/Pool/Contract.antt =====
-- The pool contract as a whole: its calls, the worlds that they reach, and what holds of these.
pub mod Defs
pub mod Invariant
pub mod Safety
