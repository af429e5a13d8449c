-- ===== src/Payroll/Contract/Frame.antt =====
-- Each step is a payroll run, a withdrawal, or a quiet step that leaves the payroll's records alone.
use paymage.Base.{◌≡◌, List, arith}
use paymage.Host.Outcome.{ok}
use paymage.Host.Interface.{Address, U256, Bytes, Groth16Proof, Host, Auth}
use paymage.Payroll.State.{World}
use paymage.Payroll.Admin.{
  set_employee_root, set_budget_cap, set_token, set_verifier, set_withdraw_verifier,
  set_view_key_for_auditor, revoke_auditor,
}
use paymage.Payroll.Run.Effect.{Ran, run_payroll-Ran}
use paymage.Payroll.Withdraw.Effect.{Withdrawn, withdraw-Withdrawn}
use paymage.Payroll.Contract.Defs.{Call, execute, Step, invoke, elsewhere, nullifiers, runs}

module _ {L : Type 0} where
  -- What a quiet step leaves alone.
  pub record IsQuiet (w w' : World L) : Type 0 where
    pub same_admin : w'.store.admin ≡ w.store.admin
    pub same_counter : w'.store.current_period ≡ w.store.current_period
    pub same_period : w'.store.period ≡ w.store.period
    pub same_commitments : w'.store.period_commitments ≡ w.store.period_commitments
    pub same_record : w'.store.commitment_record ≡ w.store.commitment_record
    pub same_nullifier : w'.store.withdrawn_nullifier ≡ w.store.withdrawn_nullifier
    pub same_root : w'.store.root_to_period ≡ w.store.root_to_period
    pub same_nullifiers : nullifiers w'.events ≡ nullifiers w.events
    pub same_runs : runs w'.events ≡ runs w.events

  pub data Effect (host : Host L) : World L → World L → Type 0 where
    quiet : {w w' : World L} → IsQuiet w w' → Effect host w w'
    ran :
        {w w' : World L} (auth : Auth) (proof : Groth16Proof) (inputs : List U256)
        (cids : List (U256 × Bytes))
        → Ran host auth proof inputs cids w w'
        → Effect host w w'
    withdrew :
        {w w' : World L} (auth : Auth) (proof : Groth16Proof) (inputs : List U256)
        (recipient : Address)
        → Withdrawn host auth proof inputs recipient w w'
        → Effect host w w'

  execute-Effect :
      (host : Host L) (auth : Auth) (call : Call) (w w' : World L)
      → execute host auth call w ≡ ok tt w'
      → Effect host w w'
  unfolding execute set_employee_root set_budget_cap set_token set_verifier set_withdraw_verifier
      set_view_key_for_auditor revoke_auditor
  execute-Effect host auth (Call.set_employee_root r) w w' h = quiet (ground arith)
  execute-Effect host auth (Call.set_budget_cap c) w w' h = quiet (ground arith)
  execute-Effect host auth (Call.set_token t) w w' h = quiet (ground arith)
  execute-Effect host auth (Call.set_verifier v) w w' h = quiet (ground arith)
  execute-Effect host auth (Call.set_withdraw_verifier v) w w' h = quiet (ground arith)
  execute-Effect host auth (Call.set_view_key_for_auditor a k) w w' h = quiet (ground arith)
  execute-Effect host auth (Call.revoke_auditor a) w w' h = quiet (ground arith)
  execute-Effect host auth (Call.run_payroll p i c) w w' h =
      ran auth p i c (run_payroll-Ran host auth p i c h)
  execute-Effect host auth (Call.withdraw p i r) w w' h =
      withdrew auth p i r (withdraw-Withdrawn host auth p i r h)

  pub Step-Effect : {host : Host L} {w w' : World L} → Step host w w' → Effect host w w'
  Step-Effect {host} {w} {w'} (invoke auth call h) = execute-Effect host auth call w w' h
  Step-Effect {host} {w} {w'} (elsewhere l e) = quiet (ground arith)
