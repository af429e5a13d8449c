-- ===== src/Payroll/Run/Effects.antt =====
-- The writes of `run_payroll` and its transfer into escrow (steps 7 to 11 of the source).
use paymage.Base.{ℕ, true, some, List, [], ◌∷◌, ◌++◌, insert, is_some, ltb}
use paymage.Host.Outcome.{⊤, ok_or, or_trap, gets, modify, fail_if, pure, ◌>>=◌, ◌>>◌}
use paymage.Host.Interface.{Address, U256, Bytes, Host, i128_max}
use paymage.Payroll.State.{
  Error, PayrollPeriod, CommitmentRecord, DataKey, M, store_with, extend_ttl, to_u128,
}
use paymage.Payroll.Run.Checks.{Batch}

module _ {L : Type 0} where
  unfoldable pub store_period : ℕ → Batch → ℕ → M L ⊤
  store_period new batch count = do
    let entry : PayrollPeriod = record {
      commitment_root = batch.employee_root;
      total_amount = batch.total_payroll_amount;
      employee_count = count;
      proof_verified = true;
    }
    store_with λ s. record s { period = insert new entry s.period }
    store_with λ s. record s { root_to_period = insert batch.employee_root new s.root_to_period }

  -- One round of the loop over `ipfs_cids`, without the push to `period_commitments`.
  unfoldable pub record_commitment : U256 → Bytes → M L ⊤
  record_commitment id cid = do
    fail_if (← gets (λ w. is_some (w.store.commitment_record id))) Error.duplicate_commitment
    let entry : CommitmentRecord = record { commitment_id = id; ipfs_cid = cid }
    store_with λ s. record s { commitment_record = insert id entry s.commitment_record }

  -- The loop; the list is `period_commitments` so far.
  unfoldable pub record_commitments : List (U256 × Bytes) → List U256 → M L (List U256)
  record_commitments [] pushed = pure pushed
  record_commitments ((id, cid) ∷ rest) pushed = do
    record_commitment id cid
    record_commitments rest (pushed ++ (id ∷ []))

  unfoldable pub close_period : ℕ → List U256 → M L ⊤
  close_period new commitments = do
    store_with λ s. record s { period_commitments = insert new commitments s.period_commitments }
    store_with λ s. record s { current_period = some new }

  unfoldable pub extend_batch : ℕ → U256 → M L ⊤
  extend_batch new root = do
    extend_ttl (DataKey.period new)
    extend_ttl (DataKey.root_to_period root)
    extend_ttl (DataKey.period_commitments new)
    extend_ttl DataKey.current_period
    extend_ttl DataKey.employee_root
    extend_ttl DataKey.budget_cap

  -- `to_u128`, the bound of i128, and the cast, which keeps the value.
  unfoldable pub to_i128 : U256 → M L ℕ
  to_i128 amount = do
    n ← ok_or (to_u128 amount) Error.non_canonical_input
    fail_if (ltb i128_max n) Error.non_canonical_input
    pure n

  unfoldable pub transfer : Host L → Address → Address → Address → ℕ → M L ⊤
  transfer host token from to amount = do
    ledger ← or_trap (host.transfer token from to amount (← gets (λ w. w.ledger)))
    modify λ w. record w { ledger = ledger }

  unfoldable pub escrow : Host L → U256 → M L ⊤
  unfolding to_i128 transfer
  escrow host total = do
    token ← ok_or (← gets (λ w. w.store.token)) Error.token_not_set
    admin ← ok_or (← gets (λ w. w.store.admin)) Error.not_authorized
    amount ← to_i128 total
    transfer host token admin host.this amount
