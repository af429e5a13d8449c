-- ===== src/NonMembership/Hashes.antt =====
-- The hashes of nodes, where their inputs are field elements.
use paymage.Base.{◌≡◌, arith, refl}
use paymage.Host.Outcome.{ok}
use paymage.Host.Interface.{U256}
use paymage.Poseidon.{poseidon2_hash2, hash, InField, Permutes, hash_lt, poseidon2_compress-hash}
use paymage.NonMembership.Defs.{World, hash_leaf, hash_internal}
use paymage.NonMembership.Smt.{Smt, root_hash}

-- The permutation's output at width 3 is a field element.
abbrev pub Permutes₃ : (U256 → U256 → U256 → U256) → Type 0
Permutes₃ perm₃ = (a b c : U256) → InField (perm₃ a b c)

module _ (perm : U256 → U256 → U256) (perm₃ : U256 → U256 → U256 → U256) where
  pub root_hash_lt : Permutes₃ perm₃ → (s : Smt) → InField (root_hash perm perm₃ s)
  root_hash_lt permutes₃ Smt.empty = omega arith
  root_hash_lt permutes₃ (Smt.leaf k v) = permutes₃ k v 1
  root_hash_lt permutes₃ (Smt.node l r) =
      hash_lt perm (root_hash perm perm₃ l) (root_hash perm perm₃ r)

  pub hash_internal-ok :
      Permutes perm
      → (w : World) (l r : U256) → InField l
      → InField r
      → hash_internal perm perm₃ l r w ≡ ok (hash perm l r) w
  unfolding hash_internal
  hash_internal-ok permutes w l r fl fr = rw (poseidon2_compress-hash perm l r permutes fl fr) refl

  pub hash_leaf-ok :
      (w : World) (k v : U256)
      → InField k
      → InField v
      → hash_leaf perm perm₃ k v w ≡ ok (perm₃ k v 1) w
  unfolding hash_leaf poseidon2_hash2
  hash_leaf-ok w k v fk fv = ground arith
