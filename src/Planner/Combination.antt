-- ===== src/Planner/Combination.antt =====
-- `find_combination` (app/crates/core/tx-planner/src/plan/combination.rs).
pub mod Defs
pub mod Search
pub mod Window
pub mod TwoScan
pub mod Choice
pub mod Dfs
pub mod Sound
pub mod Find
pub mod Pairs
pub mod Overflow
pub mod Total
