-- ===== src/Pool/Amounts.antt =====
-- The public amount of a transaction: a signed 256-bit amount as an element of the field.
pub mod Defs
pub mod Laws
