-- ===== src/Poseidon/Defs.antt =====
-- Compression of two field elements, and the hash that it computes where it does not panic.
use paymage.Base.{ℕ, zero, suc, ◌+◌, ◌%◌, ◌^◌, Option, none, some, leb, ltb, ◌||◌, if◌then◌else◌}
use paymage.Host.Interface.{U256}

abbrev pub bn256_modulus : ℕ
bn256_modulus = 0x30644e72e131a029b85045b68181585d2833e84879b9709143e1f593f0000001

module _ (perm : U256 → U256 → U256) where
  -- `none` is a panic: an input outside the field, or a sum that overflows 256 bits.
  unfoldable pub poseidon2_compress : U256 → U256 → Option U256
  poseidon2_compress left right =
      if leb bn256_modulus left || leb bn256_modulus right
      then none
      else if ltb (perm left right + left) (2 ^ 256)
      then some (
          if leb bn256_modulus (perm left right + left)
          then (perm left right + left) % bn256_modulus
          else perm left right + left)
      else none

  -- The hash of two children.
  unfoldable pub hash : U256 → U256 → U256
  hash left right = (perm left right + left) % bn256_modulus

  -- The hash of an empty subtree: a level above the leaves is the hash of two of the level below.
  unfoldable pub zero_at : ℕ → U256
  zero_at zero = 0x25302288db99350344974183ce310d63b53abb9ef0f8575753eed36e0118f9ce
  zero_at (suc l) = let below = zero_at l in hash below below

-- `perm₃ a b c` is the first element of the permutation's output at width 3; `none` is a panic.
module _ (perm₃ : U256 → U256 → U256 → U256) where
  unfoldable pub poseidon2_hash2 : U256 → U256 → Option U256 → Option U256
  poseidon2_hash2 a b sep =
      let domain : U256 = elim sep [ none ↦ 0 | some x ↦ x ] in
      if leb bn256_modulus a || leb bn256_modulus b || leb bn256_modulus domain
      then none
      else some (perm₃ a b domain)
