-- ===== src/Field.antt =====
-- Field elements of the client (app/crates/core/types/src/amounts.rs).
pub mod Defs
pub mod Laws
pub mod Tests
