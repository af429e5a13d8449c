-- ===== src/NonMembership/Defs.antt =====
-- Storage, the search, the verification of a proof, and the calls that do not change the tree. A
-- node of the tree is the list that the code stores under its hash.
use paymage.Base.{
  ℕ, zero, suc, ◌/◌, ◌%◌, ◌==◌, not, ◌&&◌, Bool, true, false, Option, none, some, List, [], ◌∷◌,
  if◌then◌else◌, Map,
}
use paymage.Host.Outcome.{
  Action, ⊤, ok_or, or_trap, gets, modify, pure, fail, fail_if, trap_unless, ◌>>=◌, ◌>>◌,
}
use paymage.Host.Interface.{Address, U256, Auth}
use paymage.Poseidon.{poseidon2_compress, poseidon2_hash2}

pub data Error : Type 0 where
  not_authorized key_not_found key_already_exists invalid_proof not_initialized overflow : Error

-- `LeafInsertedEvent` and `LeafDeletedEvent`
pub data Event : Type 0 where
  leaf_inserted : (key value root : U256) → Event
  leaf_deleted : (key root : U256) → Event

pub record World : Type 0 where
  pub admin : Option Address
  pub root : Option U256
  pub nodes : Map (List U256)
  pub events : List Event

abbrev pub M : Type 0 → Type 0
M A = Action World Error A

pub record FindResult : Type 0 where
  pub found : Bool
  pub siblings : List U256
  pub found_value : U256
  pub not_found_key : U256
  pub not_found_value : U256
  pub is_old0 : Bool

unfoldable pub constructor : Address → M ⊤
constructor admin = do
  modify λ w. record w { admin = some admin }
  modify λ w. record w { root = some 0 }

-- With `soroban_utils::update_admin`.
unfoldable pub update_admin : Auth → Address → M ⊤
update_admin auth new_admin = do
  admin ← or_trap (← gets (λ w. w.admin))
  trap_unless (auth admin)
  modify λ w. record w { admin = some new_admin }

-- A key's bits from the least significant one on.
unfoldable pub split_from : ℕ → U256 → List Bool
split_from zero k = []
split_from (suc n) k = (k % 2 == 1) ∷ split_from n (k / 2)

unfoldable pub split_bits : U256 → List Bool
split_bits key = split_from 256 key

-- A stored node: a leaf is `[1, key, value]`, an inner node `[left, right]`.
pub data Node : Type 0 where
  leaf : (key value : U256) → Node
  internal : (left right : U256) → Node
  invalid : Node

abbrev pub view_node : List U256 → Node
view_node [] = Node.invalid
view_node (a ∷ []) = Node.invalid
view_node (a ∷ b ∷ []) = Node.internal a b
view_node (a ∷ b ∷ c ∷ []) = if a == 1 then Node.leaf b c else Node.invalid
view_node (a ∷ b ∷ c ∷ d ∷ rest) = Node.invalid

abbrev pub at_empty : U256 → FindResult
at_empty key = record {
  found = false;
  siblings = [];
  found_value = 0;
  not_found_key = key;
  not_found_value = 0;
  is_old0 = true;
}

abbrev pub at_leaf : U256 → U256 → U256 → FindResult
at_leaf key stored_key stored_value =
    if stored_key == key
    then record {
      found = true;
      siblings = [];
      found_value = stored_value;
      not_found_key = 0;
      not_found_value = 0;
      is_old0 = false;
    }
    else record {
      found = false;
      siblings = [];
      found_value = 0;
      not_found_key = stored_key;
      not_found_value = stored_value;
      is_old0 = false;
    }

-- The node of a hash, where `branch` goes on below an inner node.
abbrev pub visit :
    Map (List U256) → U256 → U256 → (U256 → U256 → Option FindResult) → Option FindResult
visit nodes key root branch = if root == 0 then some (at_empty key) else elim (nodes root) [
  | none ↦ none
  | some node_data ↦ elim (view_node node_data) [
    | Node.leaf stored_key stored_value ↦ some (at_leaf key stored_key stored_value)
    | Node.internal left right ↦ branch left right
    | Node.invalid ↦ none
  ]
]

abbrev pub push_front : U256 → Option FindResult → Option FindResult
push_front sibling none = none
push_front sibling (some r) = some (record r { siblings = sibling ∷ r.siblings })

-- The search below a hash, with the key's bits from its level on; `none` is `KeyNotFound`. There
-- are 256 bits, so that the level never overflows.
unfoldable pub find_key_internal : Map (List U256) → U256 → List Bool → U256 → Option FindResult
find_key_internal nodes key [] root = visit nodes key root λ left right. none
find_key_internal nodes key (bit ∷ bits) root =
    let below = find_key_internal nodes key bits in
    visit nodes key root
      λ left right. if bit then push_front left (below right) else push_front right (below left)

-- `unwrap_or(zero)`
abbrev pub or_zero : Option U256 → U256
or_zero none = 0
or_zero (some x) = x

unfoldable pub find_key : U256 → M FindResult
find_key key = do
  root ← gets (λ w. or_zero w.root)
  nodes ← gets (λ w. w.nodes)
  ok_or (find_key_internal nodes key (split_bits key) root) Error.key_not_found

unfoldable pub get_root : M U256
get_root = do ok_or (← gets (λ w. w.root)) Error.not_initialized

-- The lists have one length and the same siblings.
abbrev pub same_siblings : List U256 → List U256 → Bool
same_siblings [] [] = true
same_siblings [] (y ∷ ys) = false
same_siblings (x ∷ xs) [] = false
same_siblings (x ∷ xs) (y ∷ ys) = (x == y) && same_siblings xs ys

module _ (perm : U256 → U256 → U256) (perm₃ : U256 → U256 → U256 → U256) where
  -- A hash that panics where an input is outside the field.
  unfoldable pub hash_leaf : U256 → U256 → M U256
  hash_leaf key value = or_trap (poseidon2_hash2 perm₃ key value (some 1))

  unfoldable pub hash_internal : U256 → U256 → M U256
  hash_internal left right = or_trap (poseidon2_compress perm left right)

  -- The root by the siblings, from the last level up.
  unfoldable pub climb : List Bool → List U256 → U256 → M U256
  climb bits [] start = pure start
  climb [] (sibling ∷ siblings) start = fail Error.invalid_proof
  climb (bit ∷ bits) (sibling ∷ siblings) start = do
    computed_root ← climb bits siblings start
    if bit then hash_internal sibling computed_root else hash_internal computed_root sibling

  -- Where the reconstruction starts.
  unfoldable pub start_of : U256 → U256 → U256 → M U256
  start_of key not_found_key not_found_value =
      if not (not_found_key == key) && not (not_found_value == 0)
      then hash_leaf not_found_key not_found_value
      else pure 0

  unfoldable pub verify_non_membership : U256 → List U256 → U256 → U256 → M Bool
  verify_non_membership key siblings not_found_key not_found_value = do
    root ← gets (λ w. or_zero w.root)
    nodes ← gets (λ w. w.nodes)
    find_result ← ok_or (find_key_internal nodes key (split_bits key) root) Error.key_not_found
    elim find_result.found [
      | true ↦ pure false
      | false ↦ do
        fail_if (not (same_siblings find_result.siblings siblings)) Error.invalid_proof
        fail_if (not (find_result.not_found_key == not_found_key)) Error.invalid_proof
        fail_if (not (find_result.not_found_value == not_found_value)) Error.invalid_proof
        start ← start_of key not_found_key not_found_value
        computed_root ← climb (split_bits key) siblings start
        fail_if (not (computed_root == root)) Error.invalid_proof
        pure true
    ]
