-- ===== src/Merkle/Spec.antt =====
-- The root of a list of leaves, by full recomputation: each level of the tree is a function from
-- positions to hashes, and past the leaves stands the hash of the empty leaf.
use paymage.Base.{ℕ, zero, suc, ◌+◌, ◌*◌, ◌/◌, ◌==◌, if◌then◌else◌, List, get_or}
use paymage.Host.Interface.{U256}
use paymage.Poseidon.{hash, zero_at}

-- A level of the tree.
abbrev pub Level : Type 0
Level = ℕ → U256

abbrev pub update : Level → ℕ → U256 → Level
update f n x i = if i == n then x else f i

-- `n` halved `k` times.
unfoldable pub halve : ℕ → ℕ → ℕ
halve zero n = n
halve (suc k) n = halve k (n / 2)

module _ (perm : U256 → U256 → U256) where
  -- The level above.
  unfoldable pub up : Level → Level
  up f i = hash perm (f (2 * i)) (f (2 * i + 1))

  -- The level `k` above.
  unfoldable pub ascend : ℕ → Level → Level
  ascend zero f = f
  ascend (suc k) f = ascend k (up f)

  unfoldable pub leaf_level : List U256 → Level
  leaf_level leaves i = get_or leaves i (zero_at perm 0)

  unfoldable pub root_of : ℕ → List U256 → U256
  root_of levels leaves = ascend levels (leaf_level leaves) 0
