-- ===== src/Poseidon.antt =====
-- The hash of the Merkle trees (contracts/soroban-utils/src/poseidon2.rs and constants.rs). The
-- Poseidon2 permutation is the host's: `perm l r` is the first element of its output at width 2.
mod Defs
mod Zeroes
mod Laws
pub mod Sample
unfoldable pub use Defs.{bn256_modulus, poseidon2_compress, poseidon2_hash2, hash, zero_at}
unfoldable pub use Zeroes.{get_zeroes}
pub use Laws.{InField, Permutes, IsZeroTable, hash_lt, zero_at_lt, poseidon2_compress-hash}
