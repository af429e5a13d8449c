-- ===== src/Payroll/Run/Checks.antt =====
-- The checks of `run_payroll`, up to the number of the new period (steps 1 to 6 of the source).
use paymage.Base.{ℕ, ◌+◌, not, Option, none, some, List, get_elem?, ◌==◌, ltb, if◌then◌else◌}
use paymage.Host.Outcome.{⊤, ok_or, or_trap, gets, fail_if, pure, ◌>>=◌, ◌>>◌}
use paymage.Host.Interface.{U256, Groth16Proof, Host, u64_max}
use paymage.Payroll.State.{Error, Storage, M, fr_to_u64}

-- `[employeeRoot, totalPayrollAmount, payrollPeriodId]`, the last still a field element.
pub record Batch : Type 0 where
  pub employee_root : U256
  pub total_payroll_amount : U256
  pub payroll_period_id_fe : U256

-- `u64::checked_add(1)`
abbrev pub checked_succ : ℕ → Option ℕ
checked_succ n = if ltb n u64_max then some (n + 1) else none

abbrev pub budget_of : Storage → U256
budget_of s = elim s.budget_cap [ none ↦ 0 | some c ↦ c ]

abbrev pub period_of : Storage → ℕ
period_of s = elim s.current_period [ none ↦ 0 | some n ↦ n ]

module _ {L : Type 0} where
  unfoldable pub read_batch : List U256 → M L Batch
  read_batch public_inputs = do
    root ← ok_or (get_elem? public_inputs 0) Error.non_canonical_input
    total ← ok_or (get_elem? public_inputs 1) Error.non_canonical_input
    period ← ok_or (get_elem? public_inputs 2) Error.non_canonical_input
    pure (record {
      employee_root = root;
      total_payroll_amount = total;
      payroll_period_id_fe = period;
    })

  unfoldable pub check_root : U256 → M L ⊤
  check_root root = do
    stored ← ok_or (← gets (λ w. w.store.employee_root)) Error.employee_root_not_set
    fail_if (not (root == stored)) Error.proof_verification_failed

  unfoldable pub check_budget : U256 → M L ⊤
  check_budget total = do
    fail_if (ltb (← gets (λ w. budget_of w.store)) total) Error.budget_exceeded

  unfoldable pub check_proof : Host L → Groth16Proof → List U256 → M L ⊤
  check_proof host proof public_inputs = do
    verifier ← ok_or (← gets (λ w. w.store.verifier)) Error.proof_verification_failed
    is_valid ← or_trap (host.verify verifier proof public_inputs)
    fail_if (not is_valid) Error.proof_verification_failed

  unfoldable pub next_period : U256 → M L ℕ
  unfolding fr_to_u64
  next_period period_fe = do
    current ← gets (λ w. period_of w.store)
    new ← ok_or (checked_succ current) Error.non_canonical_input
    proved ← fr_to_u64 period_fe
    fail_if (not (proved == new)) Error.proof_verification_failed
    pure new
