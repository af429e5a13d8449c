-- ===== src/Prover/Merkle/Client.antt =====
-- The client's tree over the commitments that the pool has published, and the pool's own tree.
use paymage.Base.{ℕ, suc, ◌≡◌, ◌<◌, ◌==◌, not, some, ◌∷◌, length, get_or, arith, refl, ==_refl}
use paymage.Host.Outcome.{ok}
use paymage.Host.Interface.{U256}
use paymage.Poseidon.{Permutes, IsZeroTable}
use paymage.Merkle.Spec.{root_of}
use paymage.Pool.Tree.History.{get_last_root_lem, is_known_root_lem}
use paymage.Pool.State.{World}
use paymage.Pool.Admin.{get_root, is_known}
use paymage.Pool.Contract.Defs.{Reach, commitments}
use paymage.Pool.Contract.Invariant.{Reach-Holds}
use paymage.Prover.Merkle.Defs.{
  MerklePrefixTree, MerklePrefixTreeBuilt, MerkleProof, new, build, proof,
}
use paymage.Prover.Merkle.Prefix.{root-root_of}
use paymage.Prover.Merkle.Siblings.{recompute}
use paymage.Prover.Merkle.Proof.{proof_of, proof-proof_of}

module _ {L : Type 0} (perm : U256 → U256 → U256) (is_perm : Permutes perm)
    (table : IsZeroTable perm) where
  -- In every world that the pool reaches, and for every commitment it has published: the client's
  -- tree over the commitments, of the pool's number of levels, is built and proves the commitment at
  -- its index. The root of the proof is the one the pool reports, follows from the commitment and
  -- the siblings of the proof, and is known to the pool unless it is 0.
  pub Reach-proof :
      {w : World L}
      → Reach perm w
      → (index : ℕ) → index < length (commitments w.events)
      → (k : ℕ) × (w.tree.levels ≡ some k)
        × (t : MerklePrefixTree) × (new perm k (commitments w.events) tt ≡ ok t tt)
        × (b : MerklePrefixTreeBuilt) × (build perm t tt ≡ ok b tt)
        × (p : MerkleProof) × (proof b index tt ≡ ok p tt)
        × (p.path_indices ≡ index)
        × (recompute perm p.path_elements index (get_or (commitments w.events) index 0) ≡ p.root)
        × (get_root w ≡ ok p.root w)
        × (is_known p.root w ≡ ok (not (p.root == 0)) w)
  unfolding get_root is_known
  Reach-proof {w} r index lt =
      let (older, k, cur, nulls, f) = Reach-Holds perm is_perm table r in
      let tree = f.pool.is_tree in
      let leaves = commitments w.events in
      let top = root_of perm (suc k) leaves in
      let (t, b, made, top_of, built, top_built, is_built) =
        root-root_of perm (suc k) leaves (omega arith) (omega (arith, tree.levels_high)) in
      let (proved, follows) =
        proof-proof_of perm (suc k) leaves b is_built (omega arith) index tree.room lt in
      (
        suc k,
        tree.levels_set,
        t,
        made,
        b,
        built,
        proof_of perm (suc k) leaves index,
        proved,
        refl,
        follows,
        ground (arith, get_last_root_lem older top cur w.tree tree.ring),
        ground (arith, is_known_root_lem (top ∷ older) cur w.tree top tree.ring, ==_refl top),
      )
