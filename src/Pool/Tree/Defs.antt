-- ===== src/Pool/Tree/Defs.antt =====
-- `MerkleTreeWithHistory`: its storage keys and its functions. What they share with the other
-- contracts' trees is in Merkle.Path.
use paymage.Base.{
  ℕ, zero, suc, ◌+◌, ◌-◌, ◌/◌, ◌%◌, ◌^◌, ◌==◌, not, ◌||◌, Bool, true, false, Option, none, some,
  Map, insert, ltb, leb, if◌then◌else◌, get_elem?, is_some,
}
use paymage.Host.Outcome.{
  Action, ⊤, ok, err, trap, ok_or, or_trap, gets, modify, fail_if, panic, pure, ◌>>=◌, ◌>>◌,
}
use paymage.Host.Interface.{U256, u64_max}
use paymage.Poseidon.{poseidon2_compress, get_zeroes}
use paymage.Merkle.Path.{Subtrees, init_levels, insert_path}

abbrev pub root_history_size : ℕ
root_history_size = 90

abbrev pub u32_max : ℕ
u32_max = 2 ^ 32 - 1

pub data MerkleError : Type 0 where
  already_initialized wrong_levels merkle_tree_full next_index_not_even : MerkleError
  not_initialized overflow : MerkleError

-- The keys Levels, CurrentRootIndex, NextIndex, FilledSubtree, Zeroes and Root.
pub record Tree : Type 0 where
  pub levels : Option ℕ
  pub current_root_index : Option ℕ
  pub next_index : Option ℕ
  pub subtrees : Subtrees
  pub root : Map U256

abbrev pub T : Type 0 → Type 0
T A = Action Tree MerkleError A

-- The part of the storage that the loops over the levels use.
abbrev pub on_subtrees : {A : Type 0} → Action Subtrees MerkleError A → T A
on_subtrees m t = elim (m t.subtrees) [
  | ok a s ↦ ok a (record t { subtrees = s })
  | err e ↦ err e
  | trap ↦ trap
]

-- `checked_add` on u32 and u64, and `1u64.checked_shl(levels)`.
abbrev pub add_u32 : ℕ → ℕ → Option ℕ
add_u32 a b = if leb (a + b) u32_max then some (a + b) else none

abbrev pub add_u64 : ℕ → ℕ → Option ℕ
add_u64 a b = if leb (a + b) u64_max then some (a + b) else none

abbrev pub shl_one : ℕ → Option ℕ
shl_one levels = if ltb levels 64 then some (2 ^ levels) else none

-- `u32::try_from`
abbrev pub to_u32 : ℕ → Option ℕ
to_u32 n = if leb n u32_max then some n else none

unfoldable pub init : ℕ → T ⊤
init levels = do
  fail_if (levels == 0 || ltb 32 levels) MerkleError.wrong_levels
  fail_if (← gets (λ t. is_some t.current_root_index)) MerkleError.already_initialized
  modify λ t. record t { levels = some levels }
  on_subtrees (init_levels MerkleError.not_initialized get_zeroes (levels + 1) 0)
  root_0 ← ok_or (get_elem? get_zeroes levels) MerkleError.not_initialized
  modify λ t. record t { root = insert 0 root_0 t.root }
  modify λ t. record t { current_root_index = some 0 }
  modify λ t. record t { next_index = some 0 }

-- The last writes of an insertion, and the indices that it returns.
unfoldable pub push_root : ℕ → ℕ → U256 → T (ℕ × ℕ)
push_root root_index next_index hash = do
  raised ← ok_or (add_u32 root_index 1) MerkleError.overflow
  let slot = raised % root_history_size
  modify λ t. record t { root = insert slot hash t.root }
  modify λ t. record t { current_root_index = some slot }
  after ← ok_or (add_u64 next_index 2) MerkleError.overflow
  modify λ t. record t { next_index = some after }
  left ← ok_or (to_u32 next_index) MerkleError.merkle_tree_full
  second ← ok_or (add_u64 next_index 1) MerkleError.overflow
  right ← ok_or (to_u32 second) MerkleError.merkle_tree_full
  pure (left, right)

module _ (perm : U256 → U256 → U256) where
  unfoldable pub insert_two_leaves : U256 → U256 → T (ℕ × ℕ)
  insert_two_leaves leaf_1 leaf_2 = do
    levels ← ok_or (← gets (λ t. t.levels)) MerkleError.not_initialized
    next_index ← ok_or (← gets (λ t. t.next_index)) MerkleError.not_initialized
    root_index ← ok_or (← gets (λ t. t.current_root_index)) MerkleError.not_initialized
    max_leaves ← ok_or (shl_one levels) MerkleError.wrong_levels
    fail_if (not (next_index % 2 == 0)) MerkleError.next_index_not_even
    last ← ok_or (add_u64 next_index 2) MerkleError.overflow
    fail_if (ltb max_leaves last) MerkleError.merkle_tree_full
    parent ← or_trap (poseidon2_compress perm leaf_1 leaf_2)
    hash ←
        on_subtrees
          (insert_path MerkleError.not_initialized perm (levels - 1) 1 (next_index / 2) parent)
    push_root root_index next_index hash

-- `if let Some(r) = .. && &r == root`
abbrev pub holds : U256 → Option U256 → Bool
holds root none = false
holds root (some r) = r == root

abbrev pub next_slot : ℕ → T ℕ
next_slot i = do
  raised ← ok_or (add_u32 i 1) MerkleError.overflow
  pure (raised % root_history_size)

-- The search loop of `is_known_root` from slot `i`, at most `rounds` rounds; a loop that does not
-- come back to the current slot runs out of the host's budget, a trap.
unfoldable pub search_roots : ℕ → ℕ → U256 → ℕ → T Bool
search_roots zero current root i = panic
search_roots (suc rounds) current root i = do
  found ← gets (λ t. holds root (t.root i))
  elim found [
    | true ↦ pure true
    | false ↦ do
      i' ← next_slot i
      elim (i' == current) [ true ↦ pure false | false ↦ search_roots rounds current root i' ]
  ]

unfoldable pub is_known_root : U256 → T Bool
is_known_root root = elim (root == 0) [
  | true ↦ pure false
  | false ↦ do
    current ← ok_or (← gets (λ t. t.current_root_index)) MerkleError.not_initialized
    search_roots root_history_size current root current
]

unfoldable pub get_last_root : T U256
get_last_root = do
  current ← ok_or (← gets (λ t. t.current_root_index)) MerkleError.not_initialized
  ok_or (← gets (λ t. t.root current)) MerkleError.not_initialized
