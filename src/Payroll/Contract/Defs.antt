-- ===== src/Payroll/Contract/Defs.antt =====
-- The entry points that write, as calls, and the worlds that invocations reach. An invocation that
-- fails is rolled back by the host, so it is no step.
use paymage.Base.{ℕ, ◌≡◌, none, List, [], ◌∷◌, empty}
use paymage.Host.Outcome.{⊤, ok}
use paymage.Host.Interface.{Address, U256, Bytes, Groth16Proof, Host, Auth}
use paymage.Payroll.State.{Event, World, M}
use paymage.Payroll.Admin
use paymage.Payroll.Run.Exec
use paymage.Payroll.Withdraw.Defs

pub data Call : Type 0 where
  set_employee_root : (root : U256) → Call
  set_budget_cap : (cap : U256) → Call
  set_token : (token : Address) → Call
  set_verifier : (verifier : Address) → Call
  set_withdraw_verifier : (verifier : Address) → Call
  set_view_key_for_auditor : (auditor : Address) (key : Bytes) → Call
  revoke_auditor : (auditor : Address) → Call
  run_payroll : (proof : Groth16Proof) (inputs : List U256) (cids : List (U256 × Bytes)) → Call
  withdraw : (proof : Groth16Proof) (inputs : List U256) (recipient : Address) → Call

module _ {L : Type 0} where
  unfoldable pub execute : Host L → Auth → Call → M L ⊤
  execute host auth (set_employee_root root) = Admin.set_employee_root auth root
  execute host auth (set_budget_cap cap) = Admin.set_budget_cap auth cap
  execute host auth (set_token token) = Admin.set_token auth token
  execute host auth (set_verifier verifier) = Admin.set_verifier auth verifier
  execute host auth (set_withdraw_verifier verifier) = Admin.set_withdraw_verifier auth verifier
  execute host auth (set_view_key_for_auditor auditor key) =
      Admin.set_view_key_for_auditor auth auditor key
  execute host auth (revoke_auditor auditor) = Admin.revoke_auditor auth auditor
  execute host auth (run_payroll proof inputs cids) = Exec.run_payroll host auth proof inputs cids
  execute host auth (withdraw proof inputs recipient) =
      Defs.withdraw host auth proof inputs recipient

  -- The world before the contract is deployed, at a state of the token contracts.
  abbrev pub blank : L → World L
  blank l = record {
    store = record {
      admin = none;
      token = none;
      verifier = none;
      employee_root = none;
      budget_cap = none;
      current_period = none;
      period = empty;
      period_commitments = empty;
      commitment_record = empty;
      auditor = empty;
      withdraw_verifier = none;
      withdrawn_nullifier = empty;
      root_to_period = empty;
    };
    ledger = l;
    events = [];
    extensions = [];
  }

  -- A successful invocation, or a change that other contracts make to the tokens.
  pub data Step (host : Host L) : World L → World L → Type 0 where
    invoke :
        {w w' : World L} (auth : Auth) (call : Call)
        → execute host auth call w ≡ ok tt w'
        → Step host w w'
    elsewhere : {w w' : World L} (l : L) → w' ≡ record w { ledger = l } → Step host w w'

  -- The worlds after deployment, in any order of steps.
  pub data Reach (host : Host L) : World L → Type 0 where
    deployed :
        {w : World L} (l : L) (admin token verifier : Address) (root cap : U256)
        → Admin.constructor admin token verifier root cap (blank l) ≡ ok tt w
        → Reach host w
    next : {w w' : World L} → Reach host w → Step host w w' → Reach host w'

-- The nullifiers of the withdrawals published, newest first.
abbrev pub nullifiers : List Event → List U256
nullifiers [] = []
nullifiers (Event.withdrawal n p s r ∷ es) = n ∷ nullifiers es
nullifiers (e ∷ es) = nullifiers es

-- The periods of the payroll runs published, newest first.
abbrev pub runs : List Event → List ℕ
runs [] = []
runs (Event.payroll_verified n r t k ∷ es) = n ∷ runs es
runs (e ∷ es) = runs es
