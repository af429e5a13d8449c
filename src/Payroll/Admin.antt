-- ===== src/Payroll/Admin.antt =====
-- The constructor, the setters of the administrator, the auditors' view keys and the queries.
use paymage.Base.{ℕ, Bool, true, false, not, Option, none, some, insert}
use paymage.Host.Outcome.{⊤, ok_or, gets, fail_if, pure, ◌>>=◌, ◌>>◌}
use paymage.Host.Interface.{Address, U256, Bytes, Auth}
use paymage.Payroll.State.{
  Error, AuditorRecord, Event, DataKey, World, M, store_with, publish, extend_ttl, require_admin,
}

module _ {L : Type 0} where
  unfoldable pub constructor : Address → Address → Address → U256 → U256 → M L ⊤
  constructor admin token verifier employee_root budget_cap = do
    store_with λ s. record s {
      admin = some admin;
      token = some token;
      verifier = some verifier;
      employee_root = some employee_root;
      budget_cap = some budget_cap;
      current_period = some 0;
    }
    extend_ttl DataKey.instance_storage

  unfoldable pub set_employee_root : Auth → U256 → M L ⊤
  unfolding require_admin
  set_employee_root auth root = do
    require_admin auth
    store_with λ s. record s { employee_root = some root }
    extend_ttl DataKey.employee_root
    publish (Event.employee_root_updated root)

  unfoldable pub set_budget_cap : Auth → U256 → M L ⊤
  unfolding require_admin
  set_budget_cap auth cap = do
    require_admin auth
    store_with λ s. record s { budget_cap = some cap }
    extend_ttl DataKey.budget_cap
    publish (Event.budget_cap_updated cap)

  unfoldable pub set_token : Auth → Address → M L ⊤
  unfolding require_admin
  set_token auth token = do
    require_admin auth
    store_with λ s. record s { token = some token }
    extend_ttl DataKey.token

  unfoldable pub set_verifier : Auth → Address → M L ⊤
  unfolding require_admin
  set_verifier auth verifier = do
    require_admin auth
    store_with λ s. record s { verifier = some verifier }
    extend_ttl DataKey.verifier

  unfoldable pub set_withdraw_verifier : Auth → Address → M L ⊤
  unfolding require_admin
  set_withdraw_verifier auth verifier = do
    require_admin auth
    store_with λ s. record s { withdraw_verifier = some verifier }
    extend_ttl DataKey.withdraw_verifier

  unfoldable pub set_view_key_for_auditor : Auth → Address → Bytes → M L ⊤
  unfolding require_admin
  set_view_key_for_auditor auth auditor key = do
    require_admin auth
    let entry : AuditorRecord = record { encrypted_view_key = key; revoked = false }
    store_with λ s. record s { auditor = insert auditor entry s.auditor }
    extend_ttl (DataKey.auditor auditor)
    publish (Event.auditor_granted auditor)

  unfoldable pub get_view_key : Address → M L Bytes
  get_view_key auditor = do
    entry ← ok_or (← gets (λ w. w.store.auditor auditor)) Error.auditor_not_found
    fail_if entry.revoked Error.auditor_revoked
    pure entry.encrypted_view_key

  unfoldable pub revoke_auditor : Auth → Address → M L ⊤
  unfolding require_admin
  revoke_auditor auth auditor = do
    require_admin auth
    entry ← ok_or (← gets (λ w. w.store.auditor auditor)) Error.auditor_not_found
    store_with
        λ s. record s { auditor = insert auditor (record entry { revoked = true }) s.auditor }
    extend_ttl (DataKey.auditor auditor)
    publish (Event.auditor_was_revoked auditor)

  unfoldable pub is_auditor : Address → World L → Bool
  is_auditor auditor w = elim (w.store.auditor auditor) [ none ↦ false | some r ↦ not r.revoked ]

  unfoldable pub get_employee_root : World L → U256
  get_employee_root w = elim w.store.employee_root [ none ↦ 0 | some r ↦ r ]

  unfoldable pub get_budget_cap : World L → U256
  get_budget_cap w = elim w.store.budget_cap [ none ↦ 0 | some c ↦ c ]

  unfoldable pub get_payroll_period : ℕ → World L → Option (U256 × U256 × ℕ)
  get_payroll_period n w = elim (w.store.period n) [
    | none ↦ none
    | some p ↦ some (p.commitment_root, p.total_amount, p.employee_count)
  ]

  unfoldable pub get_commitment_record : U256 → World L → Option (U256 × Bytes)
  get_commitment_record c w = elim (w.store.commitment_record c) [
    | none ↦ none
    | some r ↦ some (r.commitment_id, r.ipfs_cid)
  ]

  unfoldable pub get_current_period : World L → ℕ
  get_current_period w = elim w.store.current_period [ none ↦ 0 | some n ↦ n ]

  unfoldable pub is_nullifier_spent : U256 → World L → Bool
  is_nullifier_spent n w = elim (w.store.withdrawn_nullifier n) [ none ↦ false | some b ↦ b ]
