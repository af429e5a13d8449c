-- ===== src/Host.antt =====
-- What the contracts ask of the Soroban host: addresses, byte strings, 256-bit integers,
-- authorisation, cross-contract calls, the token ledger and the outcome of an invocation.
pub mod Outcome
pub mod Interface
pub mod Sample
