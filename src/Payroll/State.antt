-- ===== src/Payroll/State.antt =====
-- The storage, the events and the errors of the payroll contract, and the helpers that its entry
-- points share (contracts/payroll/src/payroll.rs). Each storage key is a field, a parametrised key a
-- map; `none` is a missing entry.
use paymage.Base.{
  ℕ, Bool, true, Option, none, some, List, ◌∷◌, Map, is_some, ltb, leb, if◌then◌else◌,
}
use paymage.Host.Outcome.{Action, ⊤, ok_or, gets, modify, trap_unless, fail_if, ◌>>=◌, ◌>>◌}
use paymage.Host.Interface.{Address, U256, Bytes, Auth, u64_max, u128_mod}

abbrev pub min_ttl : ℕ
min_ttl = 17280

abbrev pub extend_to : ℕ
extend_to = 518400

pub data Error : Type 0 where
  not_authorized budget_exceeded proof_verification_failed period_not_initialized : Error
  empty_commitments employee_root_not_set duplicate_commitment auditor_not_found : Error
  auditor_revoked non_canonical_input token_not_set nullifier_already_spent : Error
  withdraw_verifier_not_set commitment_not_found : Error

pub record PayrollPeriod : Type 0 where
  pub commitment_root : U256
  pub total_amount : U256
  pub employee_count : ℕ
  pub proof_verified : Bool

pub record AuditorRecord : Type 0 where
  pub encrypted_view_key : Bytes
  pub revoked : Bool

pub record CommitmentRecord : Type 0 where
  pub commitment_id : U256
  pub ipfs_cid : Bytes

pub data Event : Type 0 where
  payroll_verified :
      (period_id : ℕ) (commitment_root total_amount : U256) (employee_count : ℕ) → Event
  auditor_granted : (auditor : Address) → Event
  auditor_was_revoked : (auditor : Address) → Event
  employee_root_updated : (root : U256) → Event
  budget_cap_updated : (cap : U256) → Event
  withdrawal :
      (nullifier : U256) (period_id : ℕ) (salary_amount : U256) (recipient : Address) → Event

pub data DataKey : Type 0 where
  admin token verifier employee_root budget_cap current_period withdraw_verifier : DataKey
  period period_commitments : ℕ → DataKey
  commitment_record withdrawn_nullifier root_to_period : U256 → DataKey
  auditor : Address → DataKey
  -- The contract's instance storage, which the constructor extends.
  instance_storage : DataKey

pub record Storage : Type 0 where
  pub admin : Option Address
  pub token : Option Address
  pub verifier : Option Address
  pub employee_root : Option U256
  pub budget_cap : Option U256
  pub current_period : Option ℕ
  pub period : Map PayrollPeriod
  pub period_commitments : Map (List U256)
  pub commitment_record : Map CommitmentRecord
  pub auditor : Map AuditorRecord
  pub withdraw_verifier : Option Address
  pub withdrawn_nullifier : Map Bool
  pub root_to_period : Map ℕ

-- `env.storage().persistent().has(key)`; the instance is there while the contract is.
abbrev pub has : DataKey → Storage → Bool
has DataKey.admin s = is_some s.admin
has DataKey.token s = is_some s.token
has DataKey.verifier s = is_some s.verifier
has DataKey.employee_root s = is_some s.employee_root
has DataKey.budget_cap s = is_some s.budget_cap
has DataKey.current_period s = is_some s.current_period
has DataKey.withdraw_verifier s = is_some s.withdraw_verifier
has (DataKey.period n) s = is_some (s.period n)
has (DataKey.period_commitments n) s = is_some (s.period_commitments n)
has (DataKey.commitment_record c) s = is_some (s.commitment_record c)
has (DataKey.withdrawn_nullifier n) s = is_some (s.withdrawn_nullifier n)
has (DataKey.root_to_period r) s = is_some (s.root_to_period r)
has (DataKey.auditor a) s = is_some (s.auditor a)
has DataKey.instance_storage s = true

-- What an invocation can change: the storage, the token contracts, the events published and the
-- extensions of entries' lifetimes that were asked of the host (both newest first).
pub record World (L : Type 0) : Type 0 where
  pub store : Storage
  pub ledger : L
  pub events : List Event
  pub extensions : List (DataKey × ℕ × ℕ)

-- `u256.to_u128()`
abbrev pub to_u128 : U256 → Option ℕ
to_u128 n = if ltb n u128_mod then some n else none

abbrev pub M : Type 0 → Type 0 → Type 0
M L A = Action (World L) Error A

module _ {L : Type 0} where
  abbrev pub store_with : (Storage → Storage) → M L ⊤
  store_with f = modify λ w. record w { store = f w.store }

  -- `event.publish(env)`
  abbrev pub publish : Event → M L ⊤
  publish e = modify λ w. record w { events = e ∷ w.events }

  -- `extend_ttl(key, MIN_TTL, EXTEND_TO)`, which traps on a missing entry.
  abbrev pub extend_ttl : DataKey → M L ⊤
  extend_ttl k = do
    trap_unless (← gets (λ w. has k w.store))
    modify λ w. record w { extensions = (k, min_ttl, extend_to) ∷ w.extensions }

  unfoldable pub require_admin : Auth → M L ⊤
  require_admin auth = do
    a ← ok_or (← gets (λ w. w.store.admin)) Error.not_authorized
    trap_unless (auth a)

  unfoldable pub fr_to_u64 : U256 → M L ℕ
  fr_to_u64 fr = do
    n ← ok_or (to_u128 fr) Error.non_canonical_input
    fail_if (ltb u64_max n) Error.non_canonical_input
    -- `u64::try_from`, of a value that fits
    ok_or (if leb n u64_max then some n else none) Error.non_canonical_input
