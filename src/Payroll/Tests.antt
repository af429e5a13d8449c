-- ===== src/Payroll/Tests.antt =====
-- Runs of the payroll contract on concrete inputs, and each theorem at such an input.
use paymage.Base.{ℕ, ◌≡◌, refl, true, some, List, [], ◌∷◌, arith, elem, Distinct, is_some}
use paymage.Host.Outcome.{Outcome, ok, err, trap}
use paymage.Host.Sample.{Ledger, host, auth, balance, host-IsToken, funds, proof}
use paymage.Host.Interface.{Address, U256}
use paymage.Payroll.State.{World, Error, require_admin}
use paymage.Payroll.Admin.{
  constructor, set_withdraw_verifier, set_view_key_for_auditor, revoke_auditor, get_payroll_period,
  get_current_period, is_nullifier_spent,
}
use paymage.Payroll.Run.Checks.{read_batch, check_root, check_budget, check_proof, next_period}
use paymage.Payroll.Run.Effects.{
  store_period, record_commitment, record_commitments, close_period, extend_batch, escrow,
}
use paymage.Payroll.Run.Exec.{run_payroll}
use paymage.Payroll.Run.Effect.{Ran, run_payroll-Ran, Ran-run_payroll}
use paymage.Payroll.Withdraw.Defs.{
  verify_withdrawal, read_claim, check_claim, mark_spent, pay_out, withdraw,
}
use paymage.Payroll.Withdraw.Effect.{Withdrawn, withdraw-Withdrawn, Withdrawn-withdraw}
use paymage.Payroll.Contract.Defs.{
  Call, execute, blank, Step, invoke, Reach, deployed, next, nullifiers, runs,
}
use paymage.Payroll.Contract.Invariant.{count_down, in_range}
use paymage.Payroll.Contract.Safety.{Reach-no_double_withdrawal, Reach-consecutive_periods}
use paymage.Payroll.Contract.Authority.{execute-authorised, revoke_auditor-unknown}
use paymage.Payroll.Contract.Escrow.{Balanced, Moves, execute-Balanced}

abbrev final : {E : Type 0} → Outcome (World Ledger) E Unit → World Ledger
final (ok a w) = w
final (err e) = blank funds
final trap = blank funds

-- Root 77, budget 1000.
w₁ : World Ledger
unfolding constructor
w₁ = final (constructor 1 2 3 77 1000 (blank funds))

w₂ : World Ledger
unfolding w₁ set_withdraw_verifier
w₂ = final (set_withdraw_verifier auth 4 w₁)

abbrev batch_inputs : List U256
batch_inputs = 77 ∷ 900 ∷ 1 ∷ []

abbrev batch : List (U256 × List ℕ)
batch = (501, 1 ∷ []) ∷ (502, 2 ∷ []) ∷ []

-- A payroll of 900 for two employees.
w₃ : World Ledger
unfolding w₂ run_payroll require_admin read_batch check_root check_budget check_proof next_period
    store_period record_commitments record_commitment close_period extend_batch escrow
w₃ = final (run_payroll host auth proof batch_inputs batch w₂)

abbrev claim_inputs : List U256
claim_inputs = 77 ∷ 501 ∷ 31 ∷ 400 ∷ []

-- The first employee, at address 6, withdraws 400.
w₄ : World Ledger
unfolding w₃ withdraw verify_withdrawal read_claim check_claim mark_spent pay_out
w₄ = final (withdraw host auth proof claim_inputs 6 w₃)

run_ok : run_payroll host auth proof batch_inputs batch w₂ ≡ ok tt w₃
unfolding w₃
run_ok = refl

withdraw_ok : withdraw host auth proof claim_inputs 6 w₃ ≡ ok tt w₄
unfolding w₄
withdraw_ok = refl

-- The same claim again is refused.
withdraw_again : withdraw host auth proof claim_inputs 6 w₄ ≡ err Error.nullifier_already_spent
unfolding w₄
withdraw_again = refl

balances :
    (balance 2 9 w₄.ledger ≡ 500) × (balance 2 6 w₄.ledger ≡ 400) × (balance 2 1 w₄.ledger ≡ 4100)
unfolding w₄
balances = (refl, refl, refl)

w₃-Reach : Reach host w₃
unfolding w₃ execute
w₃-Reach =
    next
      (next (deployed funds 1 2 3 77 1000 refl) (invoke auth (Call.set_withdraw_verifier 4) refl))
      (invoke auth (Call.run_payroll proof batch_inputs batch) refl)

w₄-Step : Step host w₃ w₄
unfolding w₄ execute
w₄-Step = invoke auth (Call.withdraw proof claim_inputs 6) refl

w₄-Reach : Reach host w₄
w₄-Reach = next w₃-Reach w₄-Step

Reach-no_double_withdrawal_example :
    Distinct (nullifiers w₄.events) × (is_nullifier_spent 31 w₄ ≡ elem 31 (nullifiers w₄.events))
Reach-no_double_withdrawal_example = Reach-no_double_withdrawal 31 w₄-Reach

Reach-consecutive_periods_example :
    (runs w₄.events ≡ count_down (get_current_period w₄))
    × (is_some (get_payroll_period 1 w₄) ≡ in_range 1 (get_current_period w₄))
Reach-consecutive_periods_example = Reach-consecutive_periods 1 w₄-Reach

run_payroll-Ran_example : Ran host auth proof batch_inputs batch w₂ w₃
run_payroll-Ran_example = run_payroll-Ran host auth proof batch_inputs batch run_ok

Ran-run_payroll_example : run_payroll host auth proof batch_inputs batch w₂ ≡ ok tt w₃
Ran-run_payroll_example =
    Ran-run_payroll host auth proof batch_inputs batch
      (run_payroll-Ran host auth proof batch_inputs batch run_ok)

withdraw-Withdrawn_example : Withdrawn host auth proof claim_inputs 6 w₃ w₄
withdraw-Withdrawn_example = withdraw-Withdrawn host auth proof claim_inputs 6 withdraw_ok

Withdrawn-withdraw_example : withdraw host auth proof claim_inputs 6 w₃ ≡ ok tt w₄
Withdrawn-withdraw_example =
    Withdrawn-withdraw host auth proof claim_inputs 6
      (withdraw-Withdrawn host auth proof claim_inputs 6 withdraw_ok)

execute-authorised_example :
    (a : Address) × (some 6 ≡ some a) × (auth a ≡ true) × (w₄.store.admin ≡ w₃.store.admin)
unfolding execute
execute-authorised_example =
    execute-authorised host auth (Call.withdraw proof claim_inputs 6) w₃ withdraw_ok

-- The world after the auditor at 12 has been given a key.
granted : World Ledger
unfolding w₂ set_view_key_for_auditor
granted = final (set_view_key_for_auditor auth 12 (8 ∷ []) w₂)

revoked : World Ledger
unfolding granted revoke_auditor
revoked = final (revoke_auditor auth 12 granted)

revoke_auditor-unknown_example : revoke_auditor auth 12 w₂ ≡ err Error.auditor_not_found
unfolding w₂
revoke_auditor-unknown_example = revoke_auditor-unknown auth 12 1 w₂ refl refl refl

execute-Balanced_example :
    Balanced host balance host-IsToken 2 0 w₄
    × (w₄.store.token ≡ some 2)
    × Moves host balance host-IsToken 2 (Call.withdraw proof claim_inputs 6) w₃ w₄
unfolding w₃ execute
execute-Balanced_example =
    execute-Balanced host balance host-IsToken 2 auth (Call.withdraw proof claim_inputs 6) 0 w₃
      withdraw_ok refl (omega arith) refl
