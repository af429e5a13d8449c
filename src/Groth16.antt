-- ===== src/Groth16.antt =====
-- The verifier contract of Groth16 proofs (contracts/circom-groth16-verifier/src/lib.rs).
pub mod Defs
pub mod Correct
pub mod Tests
