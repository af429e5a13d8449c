-- ===== src/Merkle/Empty.antt =====
-- The empty tree: what the contracts' initialisation stores, and its root.
use paymage.Base.{ℕ, zero, suc, ◌+◌, ◌*◌, ◌≡◌, ◌<◌, ◌≤◌, refl, some, [], insert, arith, ◌∙◌, ap}
use paymage.Host.Outcome.{ok}
use paymage.Host.Interface.{U256}
use paymage.Poseidon.{zero_at, Permutes, IsZeroTable, get_zeroes}
use paymage.Merkle.Spec.{Level, up, ascend, leaf_level, root_of}
use paymage.Merkle.Path.{Subtrees, init_levels}
use paymage.Merkle.Incremental.{Fits}

module _ (perm : U256 → U256 → U256) (is_perm : Permutes perm) where
  ascend-empty :
      (k l m : ℕ) (f : Level)
      → ((i : ℕ) → f i ≡ zero_at perm l)
      → l + k ≡ m
      → ascend perm k f 0 ≡ zero_at perm m
  unfolding ascend up zero_at
  ascend-empty zero l m f h e = h 0 ∙ ap (zero_at perm) (omega arith)
  ascend-empty (suc k) l m f h e =
      ascend-empty k (suc l) m (up perm f) (λ i. rw (h (2 * i), h (2 * i + 1))) (omega arith)

  -- The root of no leaves is the hash of the empty tree.
  pub root_of-empty : (levels : ℕ) → root_of perm levels [] ≡ zero_at perm levels
  unfolding root_of leaf_level
  root_of-empty levels = ascend-empty levels 0 levels (leaf_level perm []) (λ i. refl) (omega arith)

  -- The levels from `lvl` to below `lvl + k` are set, the others left.
  pub record IsInit (k lvl : ℕ) (s s' : Subtrees) : Type 0 where
    pub zeroes_set : (j : ℕ) → lvl ≤ j → j < lvl + k → s'.zeroes j ≡ some (zero_at perm j)
    pub zeroes_below : (j : ℕ) → j < lvl → s'.zeroes j ≡ s.zeroes j

  module _ {E : Type 0} (missing : E) (table : IsZeroTable perm) where
    pub init_levels-IsInit :
        (k lvl : ℕ) (s : Subtrees)
        → lvl + k ≤ 33
        → (s' : Subtrees) × (init_levels missing get_zeroes k lvl s ≡ ok tt s') × IsInit k lvl s s'
    unfolding init_levels
    init_levels-IsInit zero lvl s h =
        (s, refl, record { zeroes_set = λ j a b. absurd (omega arith); zeroes_below = λ j a. refl })
    init_levels-IsInit (suc k) lvl s h =
        let z = zero_at perm lvl in
        let s₁ : Subtrees = record {
          filled = insert lvl z s.filled;
          zeroes = insert lvl z s.zeroes;
        } in
        let (s', e, i) = init_levels-IsInit k (suc lvl) s₁ (omega arith) in
        (
          s',
          rw (table lvl (omega arith)) e,
          record {
            zeroes_set = λ j a b. ground (arith, i.zeroes_set j, i.zeroes_below j);
            zeroes_below = λ j a. ground (arith, i.zeroes_below j);
          },
        )

  pub Fits-empty :
      (k lvl : ℕ) (f : Level) (s : Subtrees)
      → ((j : ℕ) → lvl ≤ j → j < lvl + k → s.zeroes j ≡ some (zero_at perm j))
      → Fits perm is_perm k lvl 0 f s
  Fits-empty zero lvl f s h = tt
  Fits-empty (suc k) lvl f s h = (
    (λ odd. absurd (omega arith)),
    h lvl (omega arith) (omega arith),
    Fits-empty k (suc lvl) (up perm f) s (λ j a b. h j (omega arith) (omega arith)),
  )
