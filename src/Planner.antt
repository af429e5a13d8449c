-- ===== src/Planner.antt =====
-- The transaction planner of the client (app/crates/core/tx-planner/src): which notes a spend takes,
-- the transactions that merge and spend them, and the session that runs these one by one.
pub mod Amounts
pub mod Errors
pub mod Facts
pub mod Combination
pub mod Plan
pub mod Session
pub mod Sample
pub mod Tests
