-- ===== src/Pool/State.antt =====
-- The storage, the events and the errors of the pool contract (contracts/pool/src/pool.rs), what it
-- asks of other code, and its storage getters.
use paymage.Base.{ℕ, ℤ, Bool, Option, some, List, ◌∷◌, Map, ◌%◌}
use paymage.Host.Outcome.{Action, ⊤, ok, err, trap, ok_or, or_trap, gets, modify, ◌>>=◌}
use paymage.Host.Interface.{Address, U256, Bytes, Groth16Proof, Host}
use paymage.Poseidon.{bn256_modulus}
use paymage.Pool.Tree.Defs.{Tree, MerkleError}

pub data Error : Type 0 where
  not_authorized merkle_tree_full already_initialized wrong_levels next_index_not_even : Error
  wrong_ext_amount invalid_proof unknown_root already_spent_nullifier wrong_ext_hash : Error
  not_initialized overflow non_canonical_public_input : Error

-- `impl From<MerkleError> for Error`
unfoldable pub from_merkle : MerkleError → Error
from_merkle MerkleError.already_initialized = Error.already_initialized
from_merkle MerkleError.merkle_tree_full = Error.merkle_tree_full
from_merkle MerkleError.wrong_levels = Error.wrong_levels
from_merkle MerkleError.next_index_not_even = Error.next_index_not_even
from_merkle MerkleError.not_initialized = Error.not_initialized
from_merkle MerkleError.overflow = Error.overflow

-- The 32-byte hash is the number that its bytes spell.
pub record Proof : Type 0 where
  pub proof : Groth16Proof
  pub root : U256
  pub input_nullifiers : List U256
  pub output_commitment0 : U256
  pub output_commitment1 : U256
  pub public_amount : U256
  pub ext_data_hash : U256
  pub asp_membership_root : U256
  pub asp_non_membership_root : U256

pub record ExtData : Type 0 where
  pub recipient : Address
  pub ext_amount : ℤ
  pub encrypted_output0 : Bytes
  pub encrypted_output1 : Bytes

pub data Event : Type 0 where
  new_commitment : (commitment : U256) (index : ℕ) (encrypted_output : Bytes) → Event
  new_nullifier : (nullifier : U256) → Event

-- The admin, token, verifier and limit, the nullifiers and the two association set contracts.
pub record Storage : Type 0 where
  pub admin : Option Address
  pub token : Option Address
  pub verifier : Option Address
  pub maximum_deposit_amount : Option U256
  pub nullifiers : Option (Map Bool)
  pub asp_membership : Option Address
  pub asp_non_membership : Option Address

pub record World (L : Type 0) : Type 0 where
  pub store : Storage
  pub tree : Tree
  pub ledger : L
  pub events : List Event

-- What a call may reach: the contracts of the host interface, the permutation of the hash, the
-- Keccak digest of the XDR form of external data, and the roots of the association set contracts,
-- `none` where the call traps.
pub record Env (L : Type 0) : Type 0 where
  pub host : Host L
  pub perm : U256 → U256 → U256
  pub digest : ExtData → U256
  pub membership_root : Address → Option U256
  pub non_membership_root : Address → Option U256

abbrev pub M : Type 0 → Type 0 → Type 0
M L A = Action (World L) Error A

module _ {L : Type 0} where
  abbrev pub store_with : (Storage → Storage) → M L ⊤
  store_with f = modify λ w. record w { store = f w.store }

  abbrev pub publish : Event → M L ⊤
  publish e = modify λ w. record w { events = e ∷ w.events }

  -- A call into the tree, whose errors are converted.
  abbrev pub on_tree : {A : Type 0} → Action Tree MerkleError A → M L A
  on_tree m w = elim (m w.tree) [
    | ok a t ↦ ok a (record w { tree = t })
    | err e ↦ err (from_merkle e)
    | trap ↦ trap
  ]

  unfoldable pub get_nullifiers : M L (Map Bool)
  get_nullifiers = do ok_or (← gets (λ w. w.store.nullifiers)) Error.not_initialized

  unfoldable pub set_nullifiers : Map Bool → M L ⊤
  set_nullifiers m = store_with λ s. record s { nullifiers = some m }

  unfoldable pub get_token : M L Address
  get_token = do ok_or (← gets (λ w. w.store.token)) Error.not_initialized

  unfoldable pub get_maximum_deposit : M L U256
  get_maximum_deposit = do
    ok_or (← gets (λ w. w.store.maximum_deposit_amount)) Error.not_initialized

  unfoldable pub get_verifier : M L Address
  get_verifier = do ok_or (← gets (λ w. w.store.verifier)) Error.not_initialized

  unfoldable pub get_admin : M L Address
  get_admin = do ok_or (← gets (λ w. w.store.admin)) Error.not_initialized

  unfoldable pub get_asp_membership : M L Address
  get_asp_membership = do ok_or (← gets (λ w. w.store.asp_membership)) Error.not_initialized

  unfoldable pub get_asp_non_membership : M L Address
  get_asp_non_membership = do ok_or (← gets (λ w. w.store.asp_non_membership)) Error.not_initialized

  module _ (env : Env L) where
    unfoldable pub get_asp_membership_root : M L U256
    unfolding get_asp_membership
    get_asp_membership_root = do or_trap (env.membership_root (← get_asp_membership))

    unfoldable pub get_asp_non_membership_root : M L U256
    unfolding get_asp_non_membership
    get_asp_non_membership_root = do or_trap (env.non_membership_root (← get_asp_non_membership))

-- The digest, reduced into the field.
unfoldable pub hash_ext_data : {L : Type 0} → Env L → ExtData → U256
hash_ext_data env ext = env.digest ext % bn256_modulus
