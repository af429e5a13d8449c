-- ===== src/Payroll/Contract/Authority.antt =====
-- Who can change the payroll contract, and what becomes of an auditor's view key.
use paymage.Base.{◌≡◌, refl, true, Option, none, some, arith}
use paymage.Host.Outcome.{ok, err}
use paymage.Host.Interface.{Address, Host, Auth}
use paymage.Payroll.State.{World, Error}
use paymage.Payroll.Admin.{
  set_employee_root, set_budget_cap, set_token, set_verifier, set_withdraw_verifier,
  set_view_key_for_auditor, revoke_auditor,
}
use paymage.Payroll.Run.Effect.{run_payroll-Ran}
use paymage.Payroll.Withdraw.Effect.{withdraw-Withdrawn}
use paymage.Payroll.Contract.Defs.{Call, execute}

-- Whose authorisation a call needs: the recipient's for a withdrawal, the administrator's else.
abbrev pub signer : Call → Option Address → Option Address
signer (Call.withdraw proof inputs recipient) admin = some recipient
signer call admin = admin

module _ {L : Type 0} (host : Host L) (auth : Auth) where
  -- Every call that succeeds was authorised: a withdrawal by its recipient, any other call by the
  -- administrator, who was set at that time and stays the administrator.
  pub execute-authorised :
      (call : Call) (w : World L) {w' : World L}
      → execute host auth call w ≡ ok tt w'
      → (a : Address) × (signer call w.store.admin ≡ some a)
        × (auth a ≡ true)
        × (w'.store.admin ≡ w.store.admin)
  unfolding execute set_employee_root set_budget_cap set_token set_verifier set_withdraw_verifier
      set_view_key_for_auditor revoke_auditor
  execute-authorised (Call.set_employee_root r) w h = ground arith
  execute-authorised (Call.set_budget_cap c) w h = ground arith
  execute-authorised (Call.set_token t) w h = ground arith
  execute-authorised (Call.set_verifier v) w h = ground arith
  execute-authorised (Call.set_withdraw_verifier v) w h = ground arith
  execute-authorised (Call.set_view_key_for_auditor a k) w h = ground arith
  execute-authorised (Call.revoke_auditor a) w h = ground arith
  execute-authorised (Call.run_payroll p i c) w h =
      let (b, n, a, v, t, l, k) = run_payroll-Ran host auth p i c h in
      (a, k.admin_set, k.authorised, rw k.after refl)
  execute-authorised (Call.withdraw p i r) w h =
      let (c, n, v, t, l, k) = withdraw-Withdrawn host auth p i r h in
      (r, refl, k.authorised, rw k.after refl)

module _ {L : Type 0} (auth : Auth) where
  -- Revoking an address that never was an auditor fails with that error, when the administrator asks.
  pub revoke_auditor-unknown :
      (auditor admin : Address) (w : World L)
      → w.store.admin ≡ some admin
      → auth admin ≡ true
      → w.store.auditor auditor ≡ none
      → revoke_auditor auth auditor w ≡ err Error.auditor_not_found
  unfolding revoke_auditor
  revoke_auditor-unknown auditor admin w a s n = ground arith
