-- ===== src/Prover/Merkle/Same.antt =====
-- The tree of the circuits' tests and the client's tree are the same tree.
use paymage.Base.{
  ℕ, zero, suc, ◌+◌, ◌*◌, ◌/◌, ◌%◌, ◌^◌, ◌≡◌, ◌≢◌, ◌<◌, ◌≤◌, ◌==◌, ltb, true, false, some, List, [],
  ◌∷◌, length, get_elem?, arith, refl, ap, ◌∙◌, Bool-cases, inl, inr,
}
use native.Mathlib.Nat.{pow-suc}
use paymage.Host.Outcome.{ok, trap, or_trap, >>=-ok}
use paymage.Host.Interface.{U256}
use paymage.Merkle.Spec.{Level, up, ascend, leaf_level, root_of}
use paymage.Planner.Facts.{or_trap-eq_ok}
use paymage.Prover.Merkle.Defs.{MerklePrefixTreeBuilt, MerkleProof, sibling_of, proof}
use paymage.Prover.Merkle.Full.{
  log2_within, ilog2, is_power_of_two, join_pairs, root_rounds, merkle_root, proof_rounds,
  join_bits, merkle_proof,
}
use paymage.Prover.Merkle.Siblings.{pow_pos, bits-step, siblings}
use paymage.Prover.Merkle.Prefix.{IsBuilt}
use paymage.Prover.Merkle.Proof.{proof_of, proof-proof_of}

log2_within-pow : (fuel k : ℕ) → k ≤ fuel → log2_within fuel (2 ^ k) ≡ k
unfolding log2_within
log2_within-pow zero k h = omega arith
log2_within-pow (suc fuel) zero h = refl
log2_within-pow (suc fuel) (suc k) h =
    let double : 2 ^ suc k ≡ 2 * 2 ^ k = omega (arith, pow-suc 2 k) in
    let more : ltb 1 (2 ^ suc k) ≡ true = ground (arith, pow_pos k, double) in
    let half : 2 ^ suc k / 2 ≡ 2 ^ k = omega (arith, double) in
    rw (more, half) (ap suc (log2_within-pow fuel k (omega arith)))

below_pow : (k : ℕ) → k < 2 ^ k
below_pow zero = omega arith
below_pow (suc k) = omega (arith, below_pow k, pow-suc 2 k)

ilog2-pow : (n k : ℕ) → n ≡ 2 ^ k → ilog2 n ≡ k
ilog2-pow n k e = rw e (log2_within-pow (2 ^ k) k (omega (arith, below_pow k)))

is_power_of_two-pow : (n k : ℕ) → n ≡ 2 ^ k → is_power_of_two n ≡ true
is_power_of_two-pow n k e =
    let r : 2 ^ ilog2 n ≡ n = ap (2 ^◌) (ilog2-pow n k e) ∙ cc in ground (arith, r)

module _ (perm : U256 → U256 → U256) where
  -- The nodes are the beginning of the level.
  abbrev Begins : List U256 → Level → Type 0
  Begins nodes f = (i : ℕ) → i < length nodes → get_elem? nodes i ≡ some (f i)

  join_pairs-Begins :
      (nodes : List U256) (f : Level) → Begins nodes f → Begins (join_pairs perm nodes) (up perm f)
  unfolding join_pairs up
  join_pairs-Begins [] f h i lt = absurd (omega arith)
  join_pairs-Begins (x ∷ []) f h i lt = absurd (omega arith)
  join_pairs-Begins (x ∷ y ∷ rest) f h zero lt =
      let p : some x ≡ some (f 0) = h 0 (omega arith) in
      let q : some y ≡ some (f 1) = h 1 (omega arith) in cc
  join_pairs-Begins (x ∷ y ∷ rest) f h (suc i) lt =
      let e : 2 * suc i ≡ suc (suc (2 * i)) = omega arith in
      let e' : 2 * suc i + 1 ≡ suc (suc (2 * i + 1)) = omega arith in
      let above =
        join_pairs-Begins rest (λ j. f (suc (suc j))) (λ j lt. h (suc (suc j)) (omega arith)) i
          (omega arith) in
      rw (e', e) above

  length-join_pairs : (nodes : List U256) → length (join_pairs perm nodes) ≡ length nodes / 2
  unfolding join_pairs
  length-join_pairs [] = refl
  length-join_pairs (x ∷ []) = refl
  length-join_pairs (x ∷ y ∷ rest) = omega (arith, length-join_pairs rest)

  halves :
      (nodes : List U256) (k : ℕ)
      → length nodes ≡ 2 ^ suc k
      → length (join_pairs perm nodes) ≡ 2 ^ k
  halves nodes k e = omega (arith, length-join_pairs nodes, pow-suc 2 k)

  root_rounds-ascend :
      (fuel k : ℕ) (nodes : List U256) (f : Level)
      → k < fuel
      → length nodes ≡ 2 ^ k
      → Begins nodes f
      → root_rounds perm fuel nodes tt ≡ ok (ascend perm k f 0) tt
  unfolding root_rounds ascend
  root_rounds-ascend zero k nodes f lt e h = absurd (omega arith)
  root_rounds-ascend (suc fuel) zero nodes f lt e h =
      let one : ltb 1 (length nodes) ≡ false = ground arith in
      rw one (or_trap-eq_ok tt (h 0 (omega arith)))
  root_rounds-ascend (suc fuel) (suc k) nodes f lt e h =
      let more : ltb 1 (length nodes) ≡ true = ground (arith, pow_pos k, pow-suc 2 k) in
      rw more (
        root_rounds-ascend fuel k (join_pairs perm nodes) (up perm f) (omega arith)
          (halves nodes k e) (join_pairs-Begins nodes f h))

  beside :
      (k : ℕ) (nodes : List U256) (index : ℕ)
      → length nodes ≡ 2 ^ suc k
      → index < 2 ^ suc k
      → sibling_of index < length nodes
  beside k nodes index e lt = let half : 2 ^ suc k ≡ 2 ^ k * 2 = pow-suc 2 k in ground arith

  proof_rounds-siblings :
      (k level : ℕ) (nodes : List U256) (index bits : ℕ) (f : Level)
      → length nodes ≡ 2 ^ k
      → Begins nodes f
      → index < 2 ^ k
      → bits < 2 ^ level
      → (bs : List ℕ) × (proof_rounds perm k nodes index tt ≡ ok (siblings perm k f index, bs) tt)
        × (join_bits level bs bits ≡ bits + 2 ^ level * index)
  unfolding proof_rounds join_bits siblings
  proof_rounds-siblings zero level nodes index bits f e h lt small =
      let z : index ≡ 0 = omega arith in ([], refl, rw z (omega arith))
  proof_rounds-siblings (suc k) level nodes index bits f e h lt small =
      let s = f (sibling_of index) in
      let (bits', step, small', total) = bits-step level bits index small in
      let (bs, run, joined) =
        proof_rounds-siblings k (suc level) (join_pairs perm nodes) (index / 2) bits' (up perm f)
          (halves nodes k e) (join_pairs-Begins nodes f h) (omega (arith, pow-suc 2 k)) small' in
      let there : get_elem? nodes (sibling_of index) ≡ some s =
        h (sibling_of index) (beside k nodes index e lt) in
      (
        index % 2 ∷ bs,
        >>=-ok (or_trap (get_elem? nodes (sibling_of index))) _ (or_trap-eq_ok tt there)
            ∙ >>=-ok (proof_rounds perm k (join_pairs perm nodes) (index / 2)) _ run,
        rw step joined ∙ total,
      )

  leaves-Begins : (leaves : List U256) → Begins leaves (leaf_level perm leaves)
  unfolding leaf_level
  leaves-Begins [] i lt = absurd (omega arith)
  leaves-Begins (x ∷ xs) zero lt = refl
  leaves-Begins (x ∷ xs) (suc i) lt = leaves-Begins xs i (omega arith)

  -- Of as many leaves as a power of two, `merkle_root` gives the Merkle root by which the contracts
  -- are specified.
  pub merkle_root-root_of :
      (leaves : List U256) (k : ℕ)
      → length leaves ≡ 2 ^ k
      → merkle_root perm leaves tt ≡ ok (root_of perm k leaves) tt
  unfolding merkle_root root_of
  merkle_root-root_of leaves k e =
      let some_leaves : (length leaves == 0) ≡ false = ground (arith, pow_pos k) in
      let power : is_power_of_two (length leaves) ≡ true =
        is_power_of_two-pow (length leaves) k e in
      rw (some_leaves, power)
        (root_rounds-ascend (length leaves) k leaves (leaf_level perm leaves)
          (omega (arith, below_pow k)) e (leaves-Begins leaves))

  -- Of leaves whose number is no power of two, none among them, `merkle_root` and `merkle_proof`
  -- panic.
  pub merkle_root-panics :
      (leaves : List U256) (index : ℕ)
      → ((k : ℕ) → length leaves ≢ 2 ^ k)
      → (merkle_root perm leaves tt ≡ trap) × (merkle_proof perm leaves index tt ≡ trap)
  unfolding merkle_root merkle_proof
  merkle_root-panics leaves index no_power =
      let other : is_power_of_two (length leaves) ≡ false =
        ground (arith, no_power (ilog2 (length leaves))) in
      elim (Bool-cases (length leaves == 0)) [
        | inl nothing ↦ (rw nothing refl, rw nothing refl)
        | inr something ↦ (rw (something, other) refl, rw (something, other) refl)
      ]

  -- Of as many leaves as a power of two, `merkle_proof` for an index among them gives the siblings
  -- on the leaf's path, the index itself as the bits of the path, and the exponent as the number of
  -- levels.
  pub merkle_proof-siblings :
      (leaves : List U256) (k index : ℕ)
      → length leaves ≡ 2 ^ k
      → index < 2 ^ k
      → merkle_proof perm leaves index tt
        ≡ ok (siblings perm k (leaf_level perm leaves) index, index, k) tt
  unfolding merkle_proof
  merkle_proof-siblings leaves k index e lt =
      let some_leaves : (length leaves == 0) ≡ false = ground (arith, pow_pos k) in
      let power : is_power_of_two (length leaves) ≡ true =
        is_power_of_two-pow (length leaves) k e in
      let levels : ilog2 (length leaves) ≡ k = ilog2-pow (length leaves) k e in
      let (bs, run, joined) =
        proof_rounds-siblings k 0 leaves index 0 (leaf_level perm leaves) e (leaves-Begins leaves)
          lt (omega arith) in
      let bits : join_bits 0 bs 0 ≡ index = joined ∙ omega arith in
      rw (some_leaves, power, levels)
        (>>=-ok (proof_rounds perm k leaves index) _ run
          ∙ ap (λ i. ok (siblings perm k (leaf_level perm leaves) index, i, k) tt) bits)

  -- Over as many leaves as a power of two, the client's built tree of that depth and the function of
  -- the circuits give the same proof of each leaf: the same siblings, bits and number of levels.
  pub proof-merkle_proof :
      (depth : ℕ) (leaves : List U256) (b : MerklePrefixTreeBuilt)
      → IsBuilt perm depth leaves b
      → length leaves ≡ 2 ^ depth
      → (index : ℕ) → index < length leaves
      → (p : MerkleProof) × (proof b index tt ≡ ok p tt)
        × (merkle_proof perm leaves index tt ≡ ok (p.path_elements, p.path_indices, p.levels) tt)
  proof-merkle_proof depth leaves b h full index lt = (
    proof_of perm depth leaves index,
    (proof-proof_of perm depth leaves b h (omega arith) index (omega arith) lt).0,
    merkle_proof-siblings leaves depth index full (omega arith),
  )
