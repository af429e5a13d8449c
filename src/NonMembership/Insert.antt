-- ===== src/NonMembership/Insert.antt =====
-- `insert_leaf`: the new leaf and the inner nodes above it, while the nodes that they replace go.
use paymage.Base.{
  ℕ, zero, suc, ◌-◌, ◌==◌, not, ◌&&◌, ◌||◌, ltb, Bool, true, false, none, some, List, [], ◌∷◌, ◌++◌,
  length, get_elem?, if◌then◌else◌, Map, insert,
}
use paymage.Host.Outcome.{
  ⊤, ok, ok_or, or_trap, gets, modify, pure, fail_if, trap_unless, ◌>>=◌, ◌>>◌,
}
use paymage.Host.Interface.{U256, Auth}
use paymage.NonMembership.Defs.{
  Error, Event, M, FindResult, split_bits, find_key_internal, or_zero, hash_leaf, hash_internal,
}

-- The number of places from a level on at which the keys' bits agree.
unfoldable pub common_from : List Bool → List Bool → ℕ → ℕ
common_from [] bits level = 0
common_from (o ∷ os) [] level = 0
common_from (o ∷ os) (b ∷ bs) zero =
    let rest = common_from os bs zero in if (o && b) || (not o && not b) then suc rest else 0
common_from (o ∷ os) (b ∷ bs) (suc level) = common_from os bs level

abbrev pub zeros : ℕ → List U256
zeros zero = []
zeros (suc n) = 0 ∷ zeros n

abbrev pub remove : U256 → Map (List U256) → Map (List U256)
remove k m j = if k == j then none else m j

abbrev pub set_node : U256 → List U256 → M ⊤
set_node hash node w = ok tt (record w { nodes = insert hash node w.nodes })

abbrev pub remove_node : U256 → M ⊤
remove_node hash w = ok tt (record w { nodes = remove hash w.nodes })

-- The variables of the loop.
pub record Rebuild : Type 0 where
  pub rt : U256
  pub rt_old : U256
  pub mixed : Bool

-- What the loop reads: the siblings with those added for the collision, and those that were found.
pub record Levels : Type 0 where
  pub key_bits : List Bool
  pub siblings : List U256
  pub old_siblings : List U256
  pub added_one : Bool

abbrev pub is_last_added_leaf : Levels → ℕ → Bool
is_last_added_leaf ls i = ls.added_one && i == length ls.siblings - 1

abbrev pub is_mixed : Levels → ℕ → U256 → Bool → Bool
is_mixed ls i sibling mixed =
    mixed || (not (is_last_added_leaf ls i) && ltb i (length ls.siblings - 1) && not (sibling == 0))

module _ (perm : U256 → U256 → U256) (perm₃ : U256 → U256 → U256 → U256) where
  unfoldable pub hash_pair : Bool → U256 → U256 → M U256
  hash_pair bit sibling below =
      if bit then hash_internal perm perm₃ sibling below else hash_internal perm perm₃ below sibling

  -- The old node of the level goes.
  unfoldable pub drop_old : Levels → ℕ → Bool → U256 → M U256
  drop_old ls i false rt_old = pure rt_old
  drop_old ls i true rt_old = do
    bit ← ok_or (get_elem? ls.key_bits i) Error.key_not_found
    old ← hash_pair bit (or_zero (get_elem? ls.old_siblings i)) rt_old
    remove_node old
    pure old

  unfoldable pub insert_level : Levels → ℕ → Rebuild → M Rebuild
  insert_level ls i st = do
    sibling ← or_trap (get_elem? ls.siblings i)
    mixed ← pure (is_mixed ls i sibling st.mixed)
    rt_old ← drop_old ls i (mixed && not (is_last_added_leaf ls i)) st.rt_old
    bit ← ok_or (get_elem? ls.key_bits i) Error.key_not_found
    rt ← hash_pair bit sibling st.rt
    set_node rt (if bit then sibling ∷ st.rt ∷ [] else st.rt ∷ sibling ∷ [])
    pure (record { rt = rt; rt_old = rt_old; mixed = mixed })

  -- The levels below `n`, from the last one up.
  unfoldable pub insert_levels : Levels → ℕ → Rebuild → M Rebuild
  insert_levels ls zero st = pure st
  insert_levels ls (suc i) st = do next ← insert_level ls i st; insert_levels ls i next

  -- The levels for a search that ended, and the loop's first state but for the root.
  unfoldable pub prepare : List Bool → FindResult → M (Levels × Rebuild)
  prepare key_bits r = elim r.is_old0 [
    | true ↦ pure (
      record {
        key_bits = key_bits;
        siblings = r.siblings;
        old_siblings = r.siblings;
        added_one = false;
      },
      record { rt = 0; rt_old = 0; mixed = not (length r.siblings == 0) },
    )
    | false ↦ do
      rt_old ← hash_leaf perm perm₃ r.not_found_key r.not_found_value
      common ← pure (common_from (split_bits r.not_found_key) key_bits (length r.siblings))
      pure (
        record {
          key_bits = key_bits;
          siblings = r.siblings ++ zeros common ++ rt_old ∷ [];
          old_siblings = r.siblings;
          added_one = true;
        },
        record { rt = 0; rt_old = rt_old; mixed = false },
      )
  ]

  -- The siblings are trimmed at the end, and not used after that.
  unfoldable pub insert_leaf : Auth → U256 → U256 → M ⊤
  insert_leaf auth key value = do
    admin ← ok_or (← gets (λ w. w.admin)) Error.not_initialized
    trap_unless (auth admin)
    root ← gets (λ w. or_zero w.root)
    nodes ← gets (λ w. w.nodes)
    find_result ← ok_or (find_key_internal nodes key (split_bits key) root) Error.key_not_found
    fail_if find_result.found Error.key_already_exists
    prepared ← prepare (split_bits key) find_result
    rt ← hash_leaf perm perm₃ key value
    set_node rt (1 ∷ key ∷ value ∷ [])
    final ← insert_levels prepared.0 (length prepared.0.siblings) (record prepared.1 { rt = rt })
    modify λ w. record w { root = some final.rt }
    modify λ w. record w { events = Event.leaf_inserted key value final.rt ∷ w.events }
