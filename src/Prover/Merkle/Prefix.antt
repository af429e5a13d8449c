-- ===== src/Prover/Merkle/Prefix.antt =====
-- The root of a prefix tree, computed at once and from the cached levels.
use paymage.Base.{
  ℕ, zero, suc, ◌+◌, ◌≡◌, ◌<◌, ◌≤◌, ◌==◌, ◌||◌, ltb, false, some, List, [], ◌∷◌, get_elem?, get_or,
  arith, refl, ap, ◌∙◌,
}
use paymage.Host.Outcome.{ok, ⊤, or_trap, >>=-ok}
use paymage.Host.Interface.{U256}
use paymage.Poseidon.{zero_at}
use paymage.Merkle.Spec.{Level, up, ascend, leaf_level, root_of}
use paymage.Planner.Facts.{or_trap-eq_ok}
use paymage.Prover.Merkle.Defs.{
  MerklePrefixTree, MerklePrefixTreeBuilt, pad, first_or, empty_chain, new, next_level, root_loop,
  root, build_loop, build, built_root,
}
use paymage.Prover.Merkle.Levels.{
  IsLevel, IsLevel-above, IsLevel-pad, first_or-get_or, get_elem?-empty_chain,
}

module _ (perm : U256 → U256 → U256) where
  abbrev pub chain : ℕ → List U256
  chain depth = empty_chain perm depth (zero_at perm 0)

  pub empty_at :
      (depth i : ℕ)
      → i ≤ depth
      → or_trap {E = ⊤} (get_elem? (chain depth) i) tt ≡ ok (zero_at perm i) tt
  empty_at depth i h =
      let e : 0 + i ≡ i = omega arith in
      or_trap-eq_ok tt (get_elem?-empty_chain perm depth 0 i h ∙ ap (λ n. some (zero_at perm n)) e)

  root_loop-ascend :
      (depth k level : ℕ) (nodes : List U256) (f : Level)
      → level + k ≡ depth
      → IsLevel perm nodes level f
      → root_loop perm (chain depth) k level nodes tt ≡ ok (ascend perm k f 0) tt
  unfolding root_loop ascend
  root_loop-ascend depth zero level nodes f e h =
      >>=-ok (or_trap (get_elem? (chain depth) level)) _ (empty_at depth level (omega arith))
      ∙ ap (λ x. ok x tt) (first_or-get_or perm nodes (zero_at perm level) ∙ h 0)
  root_loop-ascend depth (suc k) level nodes f e h =
      >>=-ok (or_trap (get_elem? (chain depth) level)) _ (empty_at depth level (omega arith))
      ∙ root_loop-ascend depth k (suc level)
          (next_level perm (zero_at perm level) (pad (zero_at perm level) nodes)) (up perm f)
          (omega arith) (IsLevel-above perm nodes level f h)

  -- The levels from a height on, each the level above the last.
  abbrev pub AreLevels : ℕ → Level → ℕ → List (List U256) → Type 0
  AreLevels level f k [] = ⊥
  AreLevels level f zero (nodes ∷ rest) = IsLevel perm nodes level f × (rest ≡ [])
  AreLevels level f (suc k) (nodes ∷ rest) =
      IsLevel perm nodes level f × AreLevels (suc level) (up perm f) k rest

  build_loop-AreLevels :
      (depth k level : ℕ) (nodes : List U256) (f : Level)
      → level + k ≡ depth
      → IsLevel perm nodes level f
      → (levels : List (List U256)) × (build_loop perm (chain depth) k level nodes tt
          ≡ ok levels tt)
        × AreLevels level f k levels
        × (0 < k → get_or levels 0 [] ≡ pad (zero_at perm level) nodes)
  unfolding build_loop
  build_loop-AreLevels depth zero level nodes f e h =
      (nodes ∷ [], refl, (h, refl), λ lt. absurd (omega arith))
  build_loop-AreLevels depth (suc k) level nodes f e h =
      let z = zero_at perm level in
      let above = next_level perm z (pad z nodes) in
      let (rest, q, r, first) =
        build_loop-AreLevels depth k (suc level) above (up perm f) (omega arith)
          (IsLevel-above perm nodes level f h) in
      (
        pad z nodes ∷ rest,
        >>=-ok (or_trap (get_elem? (chain depth) level)) _ (empty_at depth level (omega arith))
            ∙ >>=-ok (build_loop perm (chain depth) k (suc level) above) _ q,
        (IsLevel-pad perm nodes level f h, r),
        λ lt. refl,
      )

  -- A built tree over these leaves.
  pub record IsBuilt (depth : ℕ) (leaves : List U256) (b : MerklePrefixTreeBuilt) : Type 0 where
    pub depth_is : b.depth ≡ depth
    pub empty_is : b.empty ≡ chain depth
    pub levels_are : AreLevels 0 (leaf_level perm leaves) depth b.levels
    pub first_is : get_or b.levels 0 [] ≡ pad (zero_at perm 0) leaves

  top-IsLevel :
      (k level : ℕ) (f : Level) (levels : List (List U256))
      → AreLevels level f k levels
      → (d : U256) → d ≡ zero_at perm (level + k)
      → first_or (get_or levels k []) d ≡ ascend perm k f 0
  unfolding ascend
  top-IsLevel k level f [] h d e = elim (none_left k h) [ ]
    where
      none_left : (k : ℕ) → AreLevels level f k [] → ⊥
      none_left k h = h
  top-IsLevel zero level f (nodes ∷ rest) h d e =
      let z : level + 0 ≡ level = omega arith in
      rw (e, z) (first_or-get_or perm nodes (zero_at perm level) ∙ h.0 0)
  top-IsLevel (suc k) level f (nodes ∷ rest) h d e =
      top-IsLevel k (suc level) (up perm f) rest h.1 d (e ∙ ap (zero_at perm) (omega arith))

  pub built_root-root_of :
      (depth : ℕ) (leaves : List U256) (b : MerklePrefixTreeBuilt)
      → IsBuilt depth leaves b
      → built_root b tt ≡ ok (root_of perm depth leaves) tt
  unfolding built_root root_of
  built_root-root_of depth leaves b h =
      rw (h.depth_is, h.empty_is)
        (>>=-ok (or_trap (get_elem? (chain depth) depth)) _ (empty_at depth depth (omega arith))
          ∙ ap (λ x. ok x tt)
              (top-IsLevel depth 0 (leaf_level perm leaves) b.levels h.levels_are
                (zero_at perm depth) (ap (zero_at perm) (omega arith))))

  -- The client's tree over any leaves, of a depth from 1 to 32: `root` and the root of the built
  -- tree both succeed, and are the Merkle root of the leaves by which the contracts are specified.
  pub root-root_of :
      (depth : ℕ) (leaves : List U256)
      → 0 < depth
      → depth ≤ 32
      → (t : MerklePrefixTree) × (b : MerklePrefixTreeBuilt) × (new perm depth leaves tt ≡ ok t tt)
        × (root perm t tt ≡ ok (root_of perm depth leaves) tt)
        × (build perm t tt ≡ ok b tt)
        × (built_root b tt ≡ ok (root_of perm depth leaves) tt)
        × IsBuilt depth leaves b
  unfolding new root build root_of leaf_level zero_at
  root-root_of depth leaves low high =
      let t : MerklePrefixTree = record { depth = depth; leaves = leaves; empty = chain depth } in
      let zero_depth : (depth == 0 || ltb 32 depth) ≡ false = ground arith in
      let sums : 0 + depth ≡ depth = omega arith in
      let (levels, e, are, first) =
        build_loop-AreLevels depth depth 0 leaves (leaf_level perm leaves) sums (λ i. refl) in
      let b : MerklePrefixTreeBuilt = record {
        depth = depth;
        empty = chain depth;
        levels = levels;
      } in
      let built : IsBuilt depth leaves b = record {
        depth_is = refl;
        empty_is = refl;
        levels_are = are;
        first_is = first low;
      } in
      (
        t,
        b,
        rw zero_depth refl,
        root_loop-ascend depth depth 0 leaves (leaf_level perm leaves) sums (λ i. refl),
        >>=-ok (build_loop perm (chain depth) depth 0 leaves) _ e,
        built_root-root_of depth leaves b built,
        built,
      )
