-- ===== src/Poseidon/Laws.antt =====
-- Compression does not panic on field elements, and stays in the field.
use paymage.Base.{ℕ, zero, suc, ◌<◌, ◌≡◌, some, get_elem?, arith}
use paymage.Host.Interface.{U256}
use paymage.Poseidon.Defs.{bn256_modulus, poseidon2_compress, hash, zero_at}
use paymage.Poseidon.Zeroes.{get_zeroes}

abbrev pub InField : U256 → Type 0
InField x = x < bn256_modulus

module _ (perm : U256 → U256 → U256) where
  -- The host's permutation gives field elements.
  abbrev pub Permutes : Type 0
  Permutes = (l r : U256) → InField (perm l r)

  -- The table of the contracts holds what its comment says: the hashes of the empty subtrees.
  abbrev pub IsZeroTable : Type 0
  IsZeroTable = (i : ℕ) → i < 33 → get_elem? get_zeroes i ≡ some (zero_at perm i)

  pub hash_lt : (l r : U256) → InField (hash perm l r)
  unfolding hash
  hash_lt l r = omega arith

  pub zero_at_lt : (l : ℕ) → InField (zero_at perm l)
  unfolding zero_at
  zero_at_lt zero = omega arith
  zero_at_lt (suc l) = hash_lt (zero_at perm l) (zero_at perm l)

  pub poseidon2_compress-hash :
      (l r : U256)
      → Permutes
      → InField l
      → InField r
      → poseidon2_compress perm l r ≡ some (hash perm l r)
  unfolding poseidon2_compress hash
  poseidon2_compress-hash l r f a b = ground (arith, f l r)
