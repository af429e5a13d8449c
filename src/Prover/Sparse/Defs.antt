-- ===== src/Prover/Sparse/Defs.antt =====
-- `SparseMerkleTree`, with its nodes under their hashes. `FindResult` has the fields that it has in
-- the contract. Errors are texts in the code; every one is returned before the tree changes.
use paymage.Base.{
  ℕ, zero, suc, ◌==◌, not, Bool, true, false, Option, none, some, List, [], ◌∷◌, ◌++◌, reverse,
  length, get_elem?, if◌then◌else◌, Map, insert as map_insert, empty as empty_map,
}
use paymage.Host.Outcome.{
  Action, ⊤, ok, err, or_trap, gets, modify, pure, fail, fail_if, ◌>>=◌, ◌>>◌,
}
use paymage.Host.Interface.{U256}
use paymage.Poseidon.{hash}
use paymage.NonMembership.Defs.{FindResult, at_empty, at_leaf, split_bits}
use paymage.NonMembership.Insert.{common_from, zeros}
use paymage.NonMembership.Delete.{pop_back}

pub data Node : Type 0 where
  empty : Node
  leaf : (key value : U256) → Node
  internal : (left right : U256) → Node

pub record SparseMerkleTree : Type 0 where
  pub db : Map Node
  pub root : U256

pub record SmtResult : Type 0 where
  pub old_root : U256
  pub new_root : U256
  pub siblings : List U256
  pub old_key : U256
  pub old_value : U256
  pub new_key : U256
  pub new_value : U256
  pub is_old0 : Bool

pub data Error : Type 0 where
  too_deep node_not_found key_already_exists key_does_not_exist : Error

abbrev pub M : Type 0 → Type 0
M A = Action SparseMerkleTree Error A

abbrev pub new : SparseMerkleTree
new = record { db = empty_map; root = 0 }

-- The 256 bits, the least significant first. The loop over the four limbs is left out: this is the
-- way in which the contract splits a key, and gives the same bits.
abbrev pub field_to_bits : U256 → List Bool
field_to_bits key = split_bits key

abbrev pub get_node : U256 → SparseMerkleTree → Option Node
get_node hash t = if hash == 0 then some Node.empty else t.db hash

abbrev pub put_node : U256 → Node → M ⊤
put_node hash node t = ok tt (if hash == 0 then t else record t { db = map_insert hash node t.db })

abbrev pub push_sibling : U256 → FindResult → FindResult
push_sibling sibling r = record r { siblings = r.siblings ++ sibling ∷ [] }

-- The node of a hash, where `below` goes on in a child of an inner node.
abbrev pub visit : U256 → Bool → U256 → (U256 → M FindResult) → M FindResult
visit key bit current_hash below t = elim (current_hash == 0) [
  | true ↦ ok (at_empty key) t
  | false ↦ elim (get_node current_hash t) [
    | none ↦ err Error.node_not_found
    | some node ↦ elim node [
      | Node.empty ↦ ok (at_empty key) t
      | Node.leaf leaf_key leaf_value ↦ ok (at_leaf key leaf_key leaf_value) t
      | Node.internal left right ↦
          (below (if bit then right else left) >>= λ result.
          pure (push_sibling (if bit then left else right) result))
            t
    ]
  ]
]

-- The search below a hash, with the key's bits from its level on: there are as many levels as bits.
-- The siblings are pushed from the last one up.
unfoldable pub find_internal : U256 → List Bool → U256 → M FindResult
find_internal key [] current_hash = fail Error.too_deep
find_internal key (bit ∷ bits) current_hash = visit key bit current_hash (find_internal key bits)

unfoldable pub find : U256 → M FindResult
find key = do
  root ← gets (λ t. t.root)
  result ← find_internal key (field_to_bits key) root
  pure (record result { siblings = reverse result.siblings })

-- while siblings.last() == Some(0), pop
abbrev pub trim_zeros : List U256 → List U256
trim_zeros [] = []
trim_zeros (x ∷ xs) = elim (trim_zeros xs) [
  | [] ↦ if x == 0 then [] else x ∷ []
  | y ∷ ys ↦ x ∷ y ∷ ys
]

module _ (perm : U256 → U256 → U256) (perm₃ : U256 → U256 → U256 → U256) where
  abbrev pub poseidon2_hash_leaf : U256 → U256 → U256
  poseidon2_hash_leaf key value = perm₃ key value 1

  abbrev pub smt_hash_pair_field : U256 → U256 → U256
  smt_hash_pair_field left right = hash perm left right

  -- The siblings of the new leaf: at a collision, one empty sibling for each equal bit and the old
  -- leaf.
  unfoldable pub extend_siblings : List Bool → FindResult → List U256
  extend_siblings key_bits r =
      if r.is_old0
      then r.siblings
      else r.siblings
        ++ zeros (common_from (field_to_bits r.not_found_key) key_bits (length r.siblings))
        ++ poseidon2_hash_leaf r.not_found_key r.not_found_value ∷ []

  -- for (level, sibling) in siblings.iter().enumerate().rev(), of the levels below this one
  unfoldable pub rebuild : List Bool → List U256 → ℕ → U256 → M U256
  rebuild key_bits siblings zero current_hash = pure current_hash
  rebuild key_bits siblings (suc level) current_hash = do
    sibling ← or_trap (get_elem? siblings level)
    bit ← or_trap (get_elem? key_bits level)
    left ← pure (if bit then sibling else current_hash)
    right ← pure (if bit then current_hash else sibling)
    put_node (smt_hash_pair_field left right) (Node.internal left right)
    rebuild key_bits siblings level (smt_hash_pair_field left right)

  -- The new leaf, the nodes above it, and the root.
  unfoldable pub write_path : List Bool → List U256 → U256 → U256 → M U256
  write_path key_bits siblings key value = do
    put_node (poseidon2_hash_leaf key value) (Node.leaf key value)
    current_hash ← rebuild key_bits siblings (length siblings) (poseidon2_hash_leaf key value)
    modify λ t. record t { root = current_hash }
    pure current_hash

  unfoldable pub insert : U256 → U256 → M SmtResult
  insert key value = do
    find_result ← find key
    fail_if find_result.found Error.key_already_exists
    old_root ← gets (λ t. t.root)
    siblings ← pure (extend_siblings (field_to_bits key) find_result)
    new_root ← write_path (field_to_bits key) siblings key value
    trimmed ← pure (trim_zeros siblings)
    pure (record {
      old_root = old_root;
      new_root = new_root;
      siblings = if find_result.is_old0 then trimmed else pop_back trimmed;
      old_key = find_result.not_found_key;
      old_value = find_result.not_found_value;
      new_key = key;
      new_value = value;
      is_old0 = find_result.is_old0;
    })

  unfoldable pub update : U256 → U256 → M SmtResult
  update key new_value = do
    find_result ← find key
    fail_if (not find_result.found) Error.key_does_not_exist
    old_root ← gets (λ t. t.root)
    new_root ← write_path (field_to_bits key) find_result.siblings key new_value
    pure (record {
      old_root = old_root;
      new_root = new_root;
      siblings = find_result.siblings;
      old_key = key;
      old_value = find_result.found_value;
      new_key = key;
      new_value = new_value;
      is_old0 = false;
    })
