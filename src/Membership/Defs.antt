-- ===== src/Membership/Defs.antt =====
-- The membership contract's storage, and its entry points.
use paymage.Base.{
  ℕ, ◌+◌, ◌^◌, ◌==◌, not, ◌||◌, Bool, true, false, Option, none, some, List, ◌∷◌, ltb, leb,
  if◌then◌else◌, get_elem?, is_some,
}
use paymage.Host.Outcome.{
  Action, ⊤, ok, err, trap, ok_or, or_trap, gets, modify, fail_if, skip, trap_unless, ◌>>=◌, ◌>>◌,
}
use paymage.Host.Interface.{Address, U256, Auth, u64_max}
use paymage.Poseidon.{get_zeroes}
use paymage.Merkle.Path.{Subtrees, init_levels, insert_path}

pub data Error : Type 0 where
  not_authorized merkle_tree_full wrong_levels not_initialized overflow : Error

-- `LeafAddedEvent`
pub data Event : Type 0 where
  leaf_added : (leaf : U256) (index : ℕ) (root : U256) → Event

pub record World : Type 0 where
  pub admin : Option Address
  pub subtrees : Subtrees
  pub levels : Option ℕ
  pub next_index : Option ℕ
  pub root : Option U256
  pub admin_insert_only : Option Bool
  pub events : List Event

abbrev pub M : Type 0 → Type 0
M A = Action World Error A

abbrev pub on_subtrees : {A : Type 0} → Action Subtrees Error A → M A
on_subtrees m w = elim (m w.subtrees) [
  | ok a s ↦ ok a (record w { subtrees = s })
  | err e ↦ err e
  | trap ↦ trap
]

-- `checked_shl` and `checked_add` on u64.
abbrev pub shl_one : ℕ → Option ℕ
shl_one levels = if ltb levels 64 then some (2 ^ levels) else none

abbrev pub add_one : ℕ → Option ℕ
add_one n = if leb (n + 1) u64_max then some (n + 1) else none

-- `unwrap_or(true)`
abbrev pub or_true : Option Bool → Bool
or_true none = true
or_true (some b) = b

unfoldable pub constructor : Address → ℕ → M ⊤
constructor admin levels = do
  fail_if (levels == 0 || ltb 32 levels) Error.wrong_levels
  modify λ w. record w { admin = some admin }
  modify λ w. record w { levels = some levels }
  modify λ w. record w { next_index = some 0 }
  modify λ w. record w { admin_insert_only = some true }
  on_subtrees (init_levels Error.not_initialized get_zeroes (levels + 1) 0)
  root_val ← ok_or (get_elem? get_zeroes levels) Error.not_initialized
  modify λ w. record w { root = some root_val }

-- With `soroban_utils::update_admin`.
unfoldable pub update_admin : Auth → Address → M ⊤
update_admin auth new_admin = do
  fail_if (not (← gets (λ w. is_some w.admin))) Error.not_initialized
  admin ← or_trap (← gets (λ w. w.admin))
  trap_unless (auth admin)
  modify λ w. record w { admin = some new_admin }

unfoldable pub set_admin_insert_only : Auth → Bool → M ⊤
set_admin_insert_only auth admin_only = do
  admin ← ok_or (← gets (λ w. w.admin)) Error.not_initialized
  trap_unless (auth admin)
  modify λ w. record w { admin_insert_only = some admin_only }

unfoldable pub get_root : M U256
get_root = do ok_or (← gets (λ w. w.root)) Error.not_initialized

-- The administrator's authorisation, where it is asked for.
unfoldable pub check_admin : Auth → Bool → M ⊤
check_admin auth true = do
  admin ← ok_or (← gets (λ w. w.admin)) Error.not_initialized
  trap_unless (auth admin)
check_admin auth false = skip

unfoldable pub insert_leaf : (U256 → U256 → U256) → Auth → U256 → M ⊤
unfolding check_admin
insert_leaf perm auth leaf = do
  admin_only ← gets (λ w. or_true w.admin_insert_only)
  check_admin auth admin_only
  levels ← ok_or (← gets (λ w. w.levels)) Error.not_initialized
  actual_index ← ok_or (← gets (λ w. w.next_index)) Error.not_initialized
  capacity ← ok_or (shl_one levels) Error.merkle_tree_full
  fail_if (leb capacity actual_index) Error.merkle_tree_full
  current_hash ← on_subtrees (insert_path Error.not_initialized perm levels 0 actual_index leaf)
  modify λ w. record w { root = some current_hash }
  modify λ w. record w { events = Event.leaf_added leaf actual_index current_hash ∷ w.events }
  after ← ok_or (add_one actual_index) Error.overflow
  modify λ w. record w { next_index = some after }
