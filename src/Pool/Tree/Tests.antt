-- ===== src/Pool/Tree/Tests.antt =====
-- The pool's tree on concrete leaves, and each theorem at such an input.
use paymage.Base.{◌≡◌, ◌==◌, not, ◌&&◌, [], ◌∷◌, elem, take, arith}
use paymage.Host.Outcome.{ok}
use paymage.Poseidon.Sample.{perm, perm-Permutes, perm-IsZeroTable}
use paymage.Merkle.Spec.{root_of}
use paymage.Pool.Tree.Defs.{
  Tree, init, insert_two_leaves, is_known_root, get_last_root, root_history_size,
}
use paymage.Pool.Tree.History.{is_known_root_lem, get_last_root_lem}
use paymage.Pool.Tree.Correct.{IsTree, insert_two_leaves-IsTree}
use paymage.Pool.Tree.Init.{blank_tree, init-IsTree}

-- A tree of one level has room for two leaves.
abbrev fresh : (t : Tree) × (init 1 blank_tree ≡ ok tt t) × IsTree perm perm-Permutes [] [] 0 0 t
fresh = init-IsTree perm perm-Permutes perm-IsZeroTable 0 (omega arith)

abbrev filled :
    (t' : Tree) × (insert_two_leaves perm 5 6 fresh.0 ≡ ok (0, 1) t')
    × IsTree perm perm-Permutes (5 ∷ 6 ∷ []) (root_of perm 1 [] ∷ []) 0 1 t'
filled =
    insert_two_leaves-IsTree perm perm-Permutes [] [] 0 0 fresh.0 5 6 fresh.2 (omega arith)
      (omega arith) (omega arith)

insert_two_leaves-IsTree_example :
    (t' : Tree) × (insert_two_leaves perm 5 6 fresh.0 ≡ ok (0, 1) t')
    × IsTree perm perm-Permutes (5 ∷ 6 ∷ []) (root_of perm 1 [] ∷ []) 0 1 t'
insert_two_leaves-IsTree_example =
    insert_two_leaves-IsTree perm perm-Permutes [] [] 0 0 fresh.0 5 6 fresh.2 (omega arith)
      (omega arith) (omega arith)

is_known_root_lem_example :
    is_known_root 9 filled.0
    ≡ ok
        (not (9 == 0)
          && elem 9 (take root_history_size (root_of perm 1 (5 ∷ 6 ∷ []) ∷ root_of perm 1 [] ∷ [])))
        filled.0
is_known_root_lem_example =
    is_known_root_lem (root_of perm 1 (5 ∷ 6 ∷ []) ∷ root_of perm 1 [] ∷ []) 1 filled.0 9
      filled.2.ring

get_last_root_lem_example : get_last_root filled.0 ≡ ok (root_of perm 1 (5 ∷ 6 ∷ [])) filled.0
get_last_root_lem_example =
    get_last_root_lem (root_of perm 1 [] ∷ []) (root_of perm 1 (5 ∷ 6 ∷ [])) 1 filled.0
      filled.2.ring
