-- ===== src/Prover/Merkle/Levels.antt =====
-- The levels that the client keeps are those of the whole tree: past their end stand the hashes of
-- empty subtrees.
use paymage.Base.{
  ℕ, zero, suc, ◌+◌, ◌*◌, ◌/◌, ◌≡◌, ◌≤◌, ltb, true, some, List, [], ◌∷◌, length, get_elem?, get_or,
  arith, refl, ap, ◌∙◌, Bool-cases, inl, inr, if◌then◌else◌,
}
use paymage.Host.Interface.{U256}
use paymage.Poseidon.{hash, zero_at}
use paymage.Merkle.Spec.{Level, up}
use paymage.Prover.Merkle.Defs.{pad, first_or, empty_chain, next_nodes, next_level}

module _ (perm : U256 → U256 → U256) where
  -- The nodes are the level `f`, at height `level`.
  abbrev pub IsLevel : List U256 → ℕ → Level → Type 0
  IsLevel nodes level f = (i : ℕ) → get_or nodes i (zero_at perm level) ≡ f i

  get_or-past : (xs : List U256) (i d : U256) → length xs ≤ i → get_or xs i d ≡ d
  get_or-past [] i d h = refl
  get_or-past (x ∷ xs) zero d h = absurd (omega arith)
  get_or-past (x ∷ xs) (suc i) d h = get_or-past xs i d (omega arith)

  get_or-next_nodes :
      (e : U256) (nodes : List U256) (n i j d : ℕ)
      → get_or (next_nodes perm e nodes n i) j d ≡ (
          if ltb j n
          then hash perm (get_or nodes (2 * (i + j)) e) (get_or nodes (2 * (i + j) + 1) e)
          else d)
  unfolding next_nodes
  get_or-next_nodes e nodes zero i j d = ground arith
  get_or-next_nodes e nodes (suc n) i zero d =
      let q : i + 0 ≡ i = omega arith in
      let t : ltb 0 (suc n) ≡ true = ground arith in rw (q, t) refl
  get_or-next_nodes e nodes (suc n) i (suc j) d =
      let q : suc i + j ≡ i + suc j = omega arith in
      let t : ltb (suc j) (suc n) ≡ ltb j n = ground arith in
      rw (t, ← q) (get_or-next_nodes e nodes n (suc i) j d)

  pub IsLevel-pad :
      (nodes : List U256) (level : ℕ) (f : Level)
      → IsLevel nodes level f
      → IsLevel (pad (zero_at perm level) nodes) level f
  IsLevel-pad [] level f h zero = h zero
  IsLevel-pad [] level f h (suc i) = h (suc i)
  IsLevel-pad (x ∷ xs) level f h i = h i

  pub IsLevel-next :
      (nodes : List U256) (level : ℕ) (f : Level)
      → IsLevel nodes level f
      → IsLevel (next_level perm (zero_at perm level) nodes) (suc level) (up perm f)
  unfolding next_level up zero_at
  IsLevel-next nodes level f h i =
      let z = zero_at perm level in
      let n = (length nodes + 1) / 2 in
      get_or-next_nodes z nodes n 0 i (hash perm z z) ∙ elim (Bool-cases (ltb i n)) [
        | inl within ↦
            let q : 0 + i ≡ i = omega arith in rw (within, q, h (2 * i), h (2 * i + 1)) refl
        | inr past ↦
            let a : z ≡ f (2 * i) = rw (← get_or-past nodes (2 * i) z (ground arith)) (h (2 * i)) in
            let b : z ≡ f (2 * i + 1) =
              rw (← get_or-past nodes (2 * i + 1) z (ground arith)) (h (2 * i + 1)) in
            rw (past, ← a, ← b) refl
      ]

  -- The level above the padded one, as the loops compute it.
  pub IsLevel-above :
      (nodes : List U256) (level : ℕ) (f : Level)
      → IsLevel nodes level f
      → IsLevel
          (next_level perm (zero_at perm level) (pad (zero_at perm level) nodes))
          (suc level)
          (up perm f)
  IsLevel-above nodes level f h =
      IsLevel-next (pad (zero_at perm level) nodes) level f (IsLevel-pad nodes level f h)

  pub first_or-get_or : (xs : List U256) (d : U256) → first_or xs d ≡ get_or xs 0 d
  first_or-get_or [] d = refl
  first_or-get_or (x ∷ xs) d = refl

  -- The chain holds the hash of the empty subtree of each level.
  pub get_elem?-empty_chain :
      (k level i : ℕ)
      → i ≤ k
      → get_elem? (empty_chain perm k (zero_at perm level)) i ≡ some (zero_at perm (level + i))
  unfolding empty_chain zero_at
  get_elem?-empty_chain zero level zero h = ap (λ n. some (zero_at perm n)) (omega arith)
  get_elem?-empty_chain zero level (suc i) h = absurd (omega arith)
  get_elem?-empty_chain (suc k) level zero h = ap (λ n. some (zero_at perm n)) (omega arith)
  get_elem?-empty_chain (suc k) level (suc i) h =
      get_elem?-empty_chain k (suc level) i (omega arith)
      ∙ ap (λ n. some (zero_at perm n)) (omega arith)
