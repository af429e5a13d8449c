-- ===== src/Payroll/Contract/Escrow.antt =====
-- The contract's token balance against the payrolls and withdrawals that it has published: what each call
-- moves.
use paymage.Base.{ℕ, ◌+◌, ◌≡◌, ◌≢◌, some, List, [], ◌∷◌, arith, refl}
use paymage.Host.Outcome.{ok}
use paymage.Host.Interface.{Address, Host, Auth, IsToken}
use paymage.Payroll.State.{World, Event}
use paymage.Payroll.Admin.{
  set_employee_root, set_budget_cap, set_token, set_verifier, set_withdraw_verifier,
  set_view_key_for_auditor, revoke_auditor,
}
use paymage.Payroll.Run.Checks.{Batch}
use paymage.Payroll.Run.Phases as RunPhases
use paymage.Payroll.Run.Effect.{run_payroll-Ran}
use paymage.Payroll.Withdraw.Defs.{Claim}
use paymage.Payroll.Withdraw.Phases as WithdrawPhases
use paymage.Payroll.Withdraw.Effect.{withdraw-Withdrawn}
use paymage.Payroll.Contract.Defs.{Call, execute}

-- The totals of the payrolls published.
abbrev pub total_in : List Event → ℕ
total_in [] = 0
total_in (Event.payroll_verified n r t k ∷ es) = t + total_in es
total_in (e ∷ es) = total_in es

-- The salaries of the withdrawals published.
abbrev pub total_out : List Event → ℕ
total_out [] = 0
total_out (Event.withdrawal n p s r ∷ es) = s + total_out es
total_out (e ∷ es) = total_out es

module _ {L : Type 0} (host : Host L) (balance : Address → Address → L → ℕ)
    (is_token : IsToken host balance) (t : Address) where
  -- The books balance: what the contract holds and has paid out is what it held at the start, `start`,
  -- and has taken in.
  abbrev pub Balanced : ℕ → World L → Type 0
  Balanced start w = balance t host.this w.ledger + total_out w.events ≡ start + total_in w.events

  -- The calls in question: the token stays, and the contract pays neither itself nor by itself.
  abbrev pub KeepsToken : Call → World L → Type 0
  KeepsToken (Call.set_token t') w = t' ≡ t
  KeepsToken (Call.withdraw proof inputs recipient) w = host.this ≢ recipient
  KeepsToken (Call.run_payroll proof inputs cids) w = w.store.admin ≢ some host.this
  KeepsToken call w = Unit

  -- The money that a call moves, by what its inputs say, and what it adds to the books.
  abbrev pub Moves : Call → World L → World L → Type 0
  Moves (Call.run_payroll proof inputs cids) w w' =
      (b : Batch) × RunPhases.Reads inputs b
      × (balance t host.this w'.ledger ≡ balance t host.this w.ledger + b.total_payroll_amount)
      × (total_in w'.events ≡ total_in w.events + b.total_payroll_amount)
      × (total_out w'.events ≡ total_out w.events)
  Moves (Call.withdraw proof inputs recipient) w w' =
      (c : Claim) × WithdrawPhases.Reads inputs c
      × (balance t host.this w'.ledger + c.salary_amount ≡ balance t host.this w.ledger)
      × (total_out w'.events ≡ total_out w.events + c.salary_amount)
      × (total_in w'.events ≡ total_in w.events)
  Moves call w w' =
      (w'.ledger ≡ w.ledger)
      × (total_in w'.events ≡ total_in w.events)
      × (total_out w'.events ≡ total_out w.events)

  -- Every call that succeeds moves exactly the money that it says and keeps the books balanced in the
  -- token `t`, if `t` is the contract's token and stays it, the administrator is not the contract and
  -- no withdrawal goes to the contract. A payroll raises the contract's balance, and the sum of the
  -- payrolls published, by the total in its inputs; a withdrawal lowers the balance, and raises the
  -- sum of the withdrawals published, by the salary in its inputs; any other call leaves the token
  -- contracts and both sums as they were.
  pub execute-Balanced :
      (auth : Auth) (call : Call) (start : ℕ) (w : World L) {w' : World L}
      → execute host auth call w ≡ ok tt w'
      → w.store.token ≡ some t
      → KeepsToken call w
      → Balanced start w
      → Balanced start w' × (w'.store.token ≡ some t) × Moves call w w'
  unfolding execute set_employee_root set_budget_cap set_token set_verifier set_withdraw_verifier
      set_view_key_for_auditor revoke_auditor
  execute-Balanced auth (Call.set_employee_root r) start w h e k b = ground arith
  execute-Balanced auth (Call.set_budget_cap c) start w h e k b = ground arith
  execute-Balanced auth (Call.set_token t') start w h e k b = ground arith
  execute-Balanced auth (Call.set_verifier v) start w h e k b = ground arith
  execute-Balanced auth (Call.set_withdraw_verifier v) start w h e k b = ground arith
  execute-Balanced auth (Call.set_view_key_for_auditor a key) start w h e k b = ground arith
  execute-Balanced auth (Call.revoke_auditor a) start w h e k b = ground arith
  execute-Balanced auth (Call.run_payroll p i cids) start w h e k b =
      let (x, n, a, v, t', l, r) = run_payroll-Ran host auth p i cids h in
      let same : t' ≡ t = ground (arith, r.token_set) in
      let received =
        is_token.received t a host.this x.total_payroll_amount (rw same at r.paid)
          (ground (arith, r.admin_set)) in
      rw r.after (omega (arith, received), e, (x, r.read, received, omega arith, refl))
  execute-Balanced auth (Call.withdraw p i recipient) start w h e k b =
      let (c, n, v, t', l, r) = withdraw-Withdrawn host auth p i recipient h in
      let same : t' ≡ t = ground (arith, r.token_set) in
      let sent = is_token.sent t host.this recipient c.salary_amount (rw same at r.paid) k in
      rw r.after (omega (arith, sent), e, (c, r.read, sent, omega arith, refl))
