-- ===== src/Prover/Merkle/Proof.antt =====
-- The proofs of the built tree: from a leaf and its proof the root follows.
use paymage.Base.{
  ℕ, zero, suc, ◌+◌, ◌*◌, ◌/◌, ◌^◌, ◌≡◌, ◌<◌, ◌≤◌, leb, true, false, some, List, [], ◌∷◌, length,
  get_elem?, get_or, arith, refl, ap, ◌∙◌,
}
use native.Mathlib.Nat.{pow-suc}
use paymage.Host.Outcome.{Outcome, ok, err, ⊤, or_trap, >>=-ok}
use paymage.Host.Interface.{U256}
use paymage.Poseidon.{zero_at}
use paymage.Merkle.Spec.{Level, up, leaf_level, root_of}
use paymage.Planner.Facts.{or_trap-eq_ok}
use paymage.Prover.Merkle.Defs.{
  MerklePrefixTreeBuilt, MerkleProof, pad, sibling_of, leaf_count, path_loop, proof, built_root,
}
use paymage.Prover.Merkle.Siblings.{bits-step, siblings, recompute, recompute-siblings}
use paymage.Prover.Merkle.Prefix.{chain, empty_at, AreLevels, IsBuilt, built_root-root_of}

module _ (perm : U256 → U256 → U256) where
  -- The loop over the levels from a height on, where the levels of the tree are these.
  path_loop_lem :
      (b : MerklePrefixTreeBuilt) (depth k level current bits : ℕ) (f : Level)
      (levels : List (List U256))
      → b.empty ≡ chain perm depth
      → level + k ≡ depth
      → ((j : ℕ) → get_elem? b.levels (level + j) ≡ get_elem? levels j)
      → AreLevels perm level f k levels
      → current < 2 ^ k
      → bits < 2 ^ level
      → path_loop b k level current bits tt
        ≡ ok (siblings perm k f current, bits + 2 ^ level * current) tt
  unfolding path_loop siblings
  path_loop_lem b depth zero level current bits f levels e s at are low small =
      let z : current ≡ 0 = omega arith in
      let none_above : bits ≡ bits + 2 ^ level * current = rw z (omega arith) in
      ap (λ n. ok ([], n) tt) none_above
  path_loop_lem b depth (suc k) level current bits f [] e s at are low small = elim are [ ]
  path_loop_lem b depth (suc k) level current bits f (nodes ∷ rest) e s at are low small =
      let z = zero_at perm level in
      let (bits', step, small', total) = bits-step level bits current small in
      let at' : (j : ℕ) → get_elem? b.levels (suc level + j) ≡ get_elem? rest j =
        λ j. let q : suc level + j ≡ level + suc j = omega arith in rw q (at (suc j)) in
      let here : get_elem? b.levels level ≡ some nodes =
        let q : level + 0 ≡ level = omega arith in rw q at (at 0) in
      let run =
        path_loop_lem b depth k (suc level) (current / 2) bits' (up perm f) rest e (omega arith) at'
          are.1 (omega (arith, pow-suc 2 k)) small' in
      let there : or_trap {E = ⊤} (get_elem? b.empty level) tt ≡ ok z tt =
        rw e (empty_at perm depth level (omega arith)) in
      let ss = siblings perm k (up perm f) (current / 2) in
      >>=-ok (or_trap (get_elem? b.levels level)) _ (or_trap-eq_ok tt here)
      ∙ >>=-ok (or_trap (get_elem? b.empty level)) _ there
      ∙ rw step (
          >>=-ok (path_loop b k (suc level) (current / 2) bits') _ run
          ∙ ap (λ v. ok (get_or nodes (sibling_of current) z ∷ ss, v) tt) total)
      ∙ ap (λ x. ok (x ∷ ss, bits + 2 ^ level * current) tt) (are.0 (sibling_of current))

  -- The proof of a leaf: the siblings on its path, and its index as the bits of the path.
  abbrev pub proof_of : ℕ → List U256 → ℕ → MerkleProof
  proof_of depth leaves index = record {
    path_elements = siblings perm depth (leaf_level perm leaves) index;
    path_indices = index;
    root = root_of perm depth leaves;
    levels = depth;
  }

  module _ (depth : ℕ) (leaves : List U256) (b : MerklePrefixTreeBuilt)
      (h : IsBuilt perm depth leaves b) (some_leaves : 0 < length leaves) where
    padded : (xs : List U256) → 0 < length xs → length (pad (zero_at perm 0) xs) ≡ length xs
    padded [] lt = absurd (omega arith)
    padded (x ∷ xs) lt = refl

    count : leaf_count b ≡ length leaves
    count = ap length h.first_is ∙ padded leaves some_leaves

    get_or-within :
        (xs : List U256) (i : ℕ) → i < length xs → get_or xs i 0 ≡ get_or xs i (zero_at perm 0)
    get_or-within [] i lt = absurd (omega arith)
    get_or-within (x ∷ xs) zero lt = refl
    get_or-within (x ∷ xs) (suc i) lt = get_or-within xs i (omega arith)

    -- For the index of a leaf of a built tree whose leaves fit into its depth, `proof` succeeds: it
    -- gives the siblings on the leaf's path, the index itself as the bits of the path, and the Merkle
    -- root of the leaves. This root follows from the leaf and the siblings.
    pub proof-proof_of :
        (index : ℕ)
        → length leaves ≤ 2 ^ depth
        → index < length leaves
        → (proof b index tt ≡ ok (proof_of depth leaves index) tt)
          × (recompute perm
                (siblings perm depth (leaf_level perm leaves) index)
                index
                (get_or leaves index 0)
              ≡ root_of perm depth leaves)
    unfolding proof leaf_level root_of
    proof-proof_of index fits within =
        let inside : leb (leaf_count b) index ≡ false = ground (arith, count) in
        let run =
          path_loop_lem b depth depth 0 index 0 (leaf_level perm leaves) b.levels h.empty_is
            (omega arith) (λ j. let q : 0 + j ≡ j = omega arith in ap (get_elem? b.levels) q)
            h.levels_are (omega arith) (omega arith) in
        let ss = siblings perm depth (leaf_level perm leaves) index in
        let bits : 0 + 2 ^ 0 * index ≡ index = omega arith in
        let run' : path_loop b b.depth 0 index 0 tt ≡ ok (ss, index) tt =
          ap (λ k. path_loop b k 0 index 0 tt) h.depth_is ∙ run ∙ ap (λ i. ok (ss, i) tt) bits in
        let done : ℕ → Outcome ⊤ ⊤ MerkleProof =
          λ d. ok (record (proof_of depth leaves index) { levels = d }) tt in
        (
          rw inside (
              >>=-ok (path_loop b b.depth 0 index 0) _ run'
              ∙ >>=-ok (built_root b) _ (built_root-root_of perm depth leaves b h)
              ∙ ap done h.depth_is),
          ap (recompute perm ss index) (get_or-within leaves index within)
              ∙ recompute-siblings perm depth (leaf_level perm leaves) index (omega arith),
        )

    -- For any other index, of a tree with a leaf, `proof` returns an error.
    pub proof-out_of_range : (index : ℕ) → length leaves ≤ index → proof b index tt ≡ err tt
    unfolding proof
    proof-out_of_range index beyond =
        let outside : leb (leaf_count b) index ≡ true = ground (arith, count) in rw outside refl
