-- ===== src/Prover/Merkle/Full.antt =====
-- `merkle_root` and `merkle_proof` (circuits/src/core/merkle.rs), over full lists of leaves.
use paymage.Base.{
  ℕ, zero, suc, ◌/◌, ◌%◌, ◌^◌, ◌==◌, ◌&&◌, not, ltb, Bool, List, [], ◌∷◌, length, get_elem?,
  if◌then◌else◌,
}
use paymage.Host.Outcome.{or_trap, panic, trap_unless, pure, ◌>>=◌, ◌>>◌}
use paymage.Host.Interface.{U256}
use paymage.Prover.Merkle.Defs.{Try, sibling_of, set_bit, hash_pair}

-- `n.ilog2()`, of at most so many halvings.
unfoldable pub log2_within : ℕ → ℕ → ℕ
log2_within zero n = 0
log2_within (suc fuel) n = let rest = log2_within fuel (n / 2) in if ltb 1 n then suc rest else 0

abbrev pub ilog2 : ℕ → ℕ
ilog2 n = log2_within n n

abbrev pub is_power_of_two : ℕ → Bool
is_power_of_two n = 2 ^ ilog2 n == n

-- `path_indices |= b << i`
unfoldable pub join_bits : ℕ → List ℕ → ℕ → ℕ
join_bits i [] path_indices = path_indices
join_bits i (b ∷ bs) path_indices =
    join_bits (suc i) bs (if b == 0 then path_indices else set_bit i path_indices)

module _ (perm : U256 → U256 → U256) where
  -- for pair in nodes.chunks_exact(2)
  unfoldable pub join_pairs : List U256 → List U256
  join_pairs [] = []
  join_pairs (x ∷ []) = []
  join_pairs (x ∷ y ∷ rest) = hash_pair perm x y ∷ join_pairs rest

  -- while leaves.len() > 1, of at most so many rounds.
  unfoldable pub root_rounds : ℕ → List U256 → Try U256
  root_rounds zero leaves = panic
  root_rounds (suc fuel) leaves =
      let rest = root_rounds fuel (join_pairs leaves) in
      if ltb 1 (length leaves) then rest else or_trap (get_elem? leaves 0)

  unfoldable pub merkle_root : List U256 → Try U256
  merkle_root leaves = do
    trap_unless (not (length leaves == 0))
    trap_unless (is_power_of_two (length leaves))
    root_rounds (length leaves) leaves

  -- for _level in 0..levels: the siblings, and the bits of the index, the lowest first.
  unfoldable pub proof_rounds : ℕ → List U256 → ℕ → Try (List U256 × List ℕ)
  proof_rounds zero level_nodes index = pure ([], [])
  proof_rounds (suc levels) level_nodes index = do
    sibling ← or_trap (get_elem? level_nodes (sibling_of index))
    rest ← proof_rounds levels (join_pairs level_nodes) (index / 2)
    pure (sibling ∷ rest.0, index % 2 ∷ rest.1)

  unfoldable pub merkle_proof : List U256 → ℕ → Try (List U256 × ℕ × ℕ)
  merkle_proof leaves index = do
    trap_unless (not (length leaves == 0) && is_power_of_two (length leaves))
    path ← proof_rounds (ilog2 (length leaves)) leaves index
    pure (path.0, join_bits 0 path.1 0, ilog2 (length leaves))
