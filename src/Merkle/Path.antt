-- ===== src/Merkle/Path.antt =====
-- The loop by which a contract recomputes the hashes from a new node up to the root, with the left
-- siblings that it has stored and the hashes of empty subtrees. It is written alike in
-- contracts/pool/src/merkle_with_history.rs and contracts/asp-membership/src/lib.rs.
use paymage.Base.{ℕ, zero, suc, ◌/◌, ◌%◌, ◌==◌, Bool, true, false, List, get_elem?, Map, insert}
use paymage.Host.Outcome.{Action, ⊤, ok_or, or_trap, gets, modify, pure, ◌>>=◌, ◌>>◌}
use paymage.Host.Interface.{U256}
use paymage.Poseidon.{poseidon2_compress}

-- The keys `FilledSubtree(u32)` and `Zeroes(u32)`.
pub record Subtrees : Type 0 where
  pub filled : Map U256
  pub zeroes : Map U256

module _ {E : Type 0} (not_initialized : E) where
  -- for lvl in lvl..(lvl + k): both families start as the hashes of empty subtrees.
  unfoldable pub init_levels : List U256 → ℕ → ℕ → Action Subtrees E ⊤
  init_levels zeros zero lvl = pure tt
  init_levels zeros (suc k) lvl = do
    z ← ok_or (get_elem? zeros lvl) not_initialized
    modify λ s. record s { filled = insert lvl z s.filled }
    modify λ s. record s { zeroes = insert lvl z s.zeroes }
    init_levels zeros k (suc lvl)

  module _ (perm : U256 → U256 → U256) where
    -- One round: pair the hash with its sibling at this level.
    unfoldable pub absorb : ℕ → Bool → U256 → Action Subtrees E U256
    absorb lvl true hash = do
      left ← ok_or (← gets (λ s. s.filled lvl)) not_initialized
      or_trap (poseidon2_compress perm left hash)
    absorb lvl false hash = do
      modify λ s. record s { filled = insert lvl hash s.filled }
      zero_val ← ok_or (← gets (λ s. s.zeroes lvl)) not_initialized
      or_trap (poseidon2_compress perm hash zero_val)

    -- for lvl in lvl..(lvl + k)
    unfoldable pub insert_path : ℕ → ℕ → ℕ → U256 → Action Subtrees E U256
    insert_path zero lvl index hash = pure hash
    insert_path (suc k) lvl index hash = do
      above ← absorb lvl (index % 2 == 1) hash
      insert_path k (suc lvl) (index / 2) above
