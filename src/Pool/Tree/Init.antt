-- ===== src/Pool/Tree/Init.antt =====
-- Initialising the pool's tree.
use paymage.Base.{
  ℕ, suc, ◌+◌, ◌-◌, ◌%◌, ◌≡◌, ◌≤◌, ◌==◌, ◌||◌, true, refl, none, some, [], ◌∷◌, insert, empty,
  arith, Bool-cases, inl, inr, ltb,
}
use paymage.Host.Outcome.{ok, err}
use paymage.Host.Interface.{U256}
use paymage.Poseidon.{Permutes, IsZeroTable}
use paymage.Merkle.Spec.{up, leaf_level, root_of}
use paymage.Merkle.Empty.{root_of-empty, init_levels-IsInit, Fits-empty}
use paymage.Pool.Tree.Defs.{Tree, MerkleError, init}
use paymage.Pool.Tree.History.{IsRing}
use paymage.Pool.Tree.Correct.{IsTree}

abbrev pub blank_tree : Tree
blank_tree = record {
  levels = none;
  current_root_index = none;
  next_index = none;
  subtrees = record { filled = empty; zeroes = empty };
  root = empty;
}

-- A number of levels outside 1 to 32 is refused, whatever is stored.
pub init-wrong_levels :
    (levels : ℕ) (t : Tree)
    → (levels == 0 || ltb 32 levels) ≡ true
    → init levels t ≡ err MerkleError.wrong_levels
unfolding init
init-wrong_levels levels t h = ground arith

module _ (perm : U256 → U256 → U256) (is_perm : Permutes perm) (table : IsZeroTable perm) where
  blank-IsRing :
      (r : U256) (t : Tree)
      → t.current_root_index ≡ some 0
      → t.root ≡ insert 0 r empty
      → IsRing (r ∷ []) 0 t
  blank-IsRing r t c e = record {
    current = c;
    in_ring = omega arith;
    slots = λ i lt. rw e (elim (Bool-cases (0 == i)) [
      | inl first ↦ let age : (0 + 90 - i) % 90 ≡ 0 = ground arith in ground arith
      | inr other ↦ let age : (0 + 90 - i) % 90 ≡ suc (89 - i) = ground arith in ground arith
    ]);
  }

  -- A tree of 1 to 32 levels is initialised as the tree of no leaves, whose root is the current
  -- one; there are no older roots.
  pub init-IsTree :
      (k : ℕ)
      → k ≤ 31
      → (t : Tree) × (init (suc k) blank_tree ≡ ok tt t) × IsTree perm is_perm [] [] k 0 t
  unfolding init
  init-IsTree k high =
      let (s, e, i) =
        init_levels-IsInit perm is_perm MerkleError.not_initialized table (suc k + 1) 0
          blank_tree.subtrees (omega arith) in
      let t : Tree = record {
        levels = some (suc k);
        current_root_index = some 0;
        next_index = some 0;
        subtrees = s;
        root = insert 0 (root_of perm (suc k) []) empty;
      } in
      (
        t,
        ground (arith, e, table (suc k) (omega arith), root_of-empty perm is_perm (suc k)),
        record {
          levels_set = refl;
          levels_high = high;
          next_set = refl;
          room = omega arith;
          even = omega arith;
          field = tt;
          fits =
              Fits-empty perm is_perm k 1 (up perm (leaf_level perm [])) s
                (λ j a b. i.zeroes_set j (omega arith) (omega arith));
          ring = blank-IsRing (root_of perm (suc k) []) t refl refl;
        },
      )
