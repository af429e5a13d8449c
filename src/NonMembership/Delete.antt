-- ===== src/NonMembership/Delete.antt =====
-- `delete_leaf`: the leaf goes, a leaf beside it moves up, and the nodes above are rebuilt.
use paymage.Base.{
  ℕ, zero, suc, ◌==◌, not, ◌||◌, Bool, true, false, Option, none, some, List, [], ◌∷◌, length,
  get_elem?, if◌then◌else◌, Map,
}
use paymage.Host.Outcome.{⊤, ok_or, gets, modify, pure, fail, fail_if, trap_unless, ◌>>=◌, ◌>>◌}
use paymage.Host.Interface.{U256, Auth}
use paymage.NonMembership.Defs.{
  Error, Event, M, Node, view_node, split_bits, find_key_internal, hash_leaf,
}
use paymage.NonMembership.Insert.{Rebuild, set_node, remove_node, hash_pair}

-- `siblings.last()` and what is left without it.
abbrev pub last : List U256 → Option U256
last [] = none
last (x ∷ []) = some x
last (x ∷ y ∷ ys) = last (y ∷ ys)

abbrev pub pop_back : List U256 → List U256
pop_back [] = []
pop_back (x ∷ []) = []
pop_back (x ∷ y ∷ ys) = x ∷ pop_back (y ∷ ys)

-- What moves up in place of the deleted leaf, and the siblings that are left.
unfoldable pub promote : Map (List U256) → List U256 → M (U256 × List U256)
promote nodes siblings = elim (last siblings) [
  | none ↦ pure (0, siblings)
  | some last_sibling ↦ do
    node_data ← ok_or (nodes last_sibling) Error.key_not_found
    elim (view_node node_data) [
      | Node.leaf key value ↦ pure (last_sibling, pop_back siblings)
      | Node.internal left right ↦ pure (0, siblings)
      | Node.invalid ↦ fail Error.key_not_found
    ]
]

module _ (perm : U256 → U256 → U256) (perm₃ : U256 → U256 → U256 → U256) where
  -- The new node of the level, once a sibling is not empty.
  unfoldable pub build_new : Bool → Bool → U256 → U256 → M U256
  build_new false bit sibling rt_new = pure rt_new
  build_new true bit sibling rt_new = do
    rt ← hash_pair perm perm₃ bit sibling rt_new
    set_node rt (if bit then sibling ∷ rt_new ∷ [] else rt_new ∷ sibling ∷ [])
    pure rt

  unfoldable pub delete_level : List Bool → List U256 → ℕ → Rebuild → M Rebuild
  delete_level key_bits siblings level st = do
    sibling ← ok_or (get_elem? siblings level) Error.key_not_found
    bit ← ok_or (get_elem? key_bits level) Error.key_not_found
    rt_old ← hash_pair perm perm₃ bit sibling st.rt_old
    remove_node rt_old
    mixed ← pure (st.mixed || not (sibling == 0))
    rt ← build_new mixed bit sibling st.rt
    pure (record { rt = rt; rt_old = rt_old; mixed = mixed })

  unfoldable pub delete_levels : List Bool → List U256 → ℕ → Rebuild → M Rebuild
  delete_levels key_bits siblings zero st = pure st
  delete_levels key_bits siblings (suc level) st = do
    next ← delete_level key_bits siblings level st
    delete_levels key_bits siblings level next

  unfoldable pub delete_leaf : Auth → U256 → M ⊤
  delete_leaf auth key = do
    admin ← ok_or (← gets (λ w. w.admin)) Error.not_initialized
    trap_unless (auth admin)
    root ← ok_or (← gets (λ w. w.root)) Error.not_initialized
    nodes ← gets (λ w. w.nodes)
    find_result ← ok_or (find_key_internal nodes key (split_bits key) root) Error.key_not_found
    fail_if (not find_result.found) Error.key_not_found
    rt_old ← hash_leaf perm perm₃ key find_result.found_value
    remove_node rt_old
    left_nodes ← gets (λ w. w.nodes)
    promoted ← promote left_nodes find_result.siblings
    final ←
        delete_levels (split_bits key) promoted.1 (length promoted.1)
          (record { rt = promoted.0; rt_old = rt_old; mixed = false })
    modify λ w. record w { root = some final.rt }
    modify λ w. record w { events = Event.leaf_deleted key final.rt ∷ w.events }
