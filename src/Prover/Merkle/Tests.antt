-- ===== src/Prover/Merkle/Tests.antt =====
-- The client's trees on concrete leaves.
use paymage.Base.{ℕ, zero, suc, ◌^◌, ◌≡◌, ◌≢◌, ◌==◌, not, some, List, [], ◌∷◌, get_or, arith, refl}
use native.Mathlib.Nat.{pow-suc}
use paymage.Host.Outcome.{Outcome, ok, err, trap}
use paymage.Host.Interface.{U256}
use paymage.Poseidon.Sample.{perm, perm-Permutes, perm-IsZeroTable}
use paymage.Merkle.Spec.{leaf_level, root_of}
use paymage.Pool.Admin.{get_root, is_known}
use paymage.Pool.Contract.Defs.{commitments}
use paymage.Pool.Tests.{w₂, w₂-Reach, two_published}
use paymage.Prover.Merkle.Defs.{
  MerklePrefixTree, MerklePrefixTreeBuilt, MerkleProof, leaf_count, new, root, build, built_root,
  proof, empty_chain, build_loop,
}
use paymage.Prover.Merkle.Prefix.{IsBuilt, root-root_of}
use paymage.Prover.Merkle.Siblings.{recompute, siblings}
use paymage.Prover.Merkle.Proof.{proof_of, proof-proof_of, proof-out_of_range}
use paymage.Prover.Merkle.Full.{merkle_proof}
use paymage.Prover.Merkle.Same.{proof-merkle_proof}
use paymage.Prover.Merkle.Client.{Reach-proof}

abbrev leaves : List U256
leaves = 51 ∷ 52 ∷ 53 ∷ []

abbrev four : List U256
four = 51 ∷ 52 ∷ 53 ∷ 54 ∷ []

root-root_of_example :
    (t : MerklePrefixTree) × (b : MerklePrefixTreeBuilt) × (new perm 2 leaves tt ≡ ok t tt)
    × (root perm t tt ≡ ok (root_of perm 2 leaves) tt)
    × (build perm t tt ≡ ok b tt)
    × (built_root b tt ≡ ok (root_of perm 2 leaves) tt)
    × IsBuilt perm 2 leaves b
root-root_of_example = root-root_of perm 2 leaves (omega arith) (omega arith)

b₃ : MerklePrefixTreeBuilt
b₃ = (root-root_of perm 2 leaves (omega arith) (omega arith)).1

b₃-IsBuilt : IsBuilt perm 2 leaves b₃
unfolding b₃
b₃-IsBuilt = (root-root_of perm 2 leaves (omega arith) (omega arith)).6

b₄ : MerklePrefixTreeBuilt
b₄ = (root-root_of perm 2 four (omega arith) (omega arith)).1

b₄-IsBuilt : IsBuilt perm 2 four b₄
unfolding b₄
b₄-IsBuilt = (root-root_of perm 2 four (omega arith) (omega arith)).6

proof-proof_of_example :
    (proof b₃ 2 tt ≡ ok (proof_of perm 2 leaves 2) tt)
    × (recompute perm (siblings perm 2 (leaf_level perm leaves) 2) 2 53 ≡ root_of perm 2 leaves)
proof-proof_of_example =
    proof-proof_of perm 2 leaves b₃ b₃-IsBuilt (omega arith) 2 (omega arith) (omega arith)

proof-out_of_range_example : proof b₃ 3 tt ≡ err tt
proof-out_of_range_example =
    proof-out_of_range perm 2 leaves b₃ b₃-IsBuilt (omega arith) 3 (omega arith)

no_three : (k : ℕ) → 3 ≢ 2 ^ k
no_three zero e = omega arith
no_three (suc k) e = omega (arith, pow-suc 2 k)

proof-merkle_proof_example :
    (p : MerkleProof) × (proof b₄ 1 tt ≡ ok p tt)
    × (merkle_proof perm four 1 tt ≡ ok (p.path_elements, p.path_indices, p.levels) tt)
proof-merkle_proof_example =
    proof-merkle_proof perm 2 four b₄ b₄-IsBuilt (omega arith) 1 (omega arith)

Reach-proof_example :
    (k : ℕ) × (w₂.tree.levels ≡ some k)
    × (t : MerklePrefixTree) × (new perm k (commitments w₂.events) tt ≡ ok t tt)
    × (b : MerklePrefixTreeBuilt) × (build perm t tt ≡ ok b tt)
    × (p : MerkleProof) × (proof b 1 tt ≡ ok p tt)
    × (p.path_indices ≡ 1)
    × (recompute perm p.path_elements 1 (get_or (commitments w₂.events) 1 0) ≡ p.root)
    × (get_root w₂ ≡ ok p.root w₂)
    × (is_known p.root w₂ ≡ ok (not (p.root == 0)) w₂)
Reach-proof_example = Reach-proof perm perm-Permutes perm-IsZeroTable w₂-Reach 1 two_published

abbrev built : Outcome Unit Unit MerklePrefixTreeBuilt → MerklePrefixTreeBuilt
built (ok b w) = b
built (err e) = record { depth = 0; empty = []; levels = [] }
built trap = record { depth = 0; empty = []; levels = [] }

-- The levels of a tree without leaves start with the padded one, so one leaf is counted.
one_counted :
    leaf_count
      (built (build perm (record { depth = 1; leaves = []; empty = empty_chain perm 1 7 }) tt))
    ≡ 1
unfolding build build_loop empty_chain
one_counted = refl
