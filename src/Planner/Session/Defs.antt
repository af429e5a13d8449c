-- ===== src/Planner/Session/Defs.antt =====
-- `SpendSession`, `materialize_step` and their errors. `complete_step` changes nothing before it
-- fails, so its failures carry no session.
use paymage.Base.{
  ℕ, ◌+◌, ◌==◌, leb, Bool, true, false, Option, none, some, List, [], ◌∷◌, ◌++◌, length, get_elem?,
  if◌then◌else◌, pos,
}
use paymage.Host.Outcome.{
  Action, ok, err, trap, ok_or, or_trap, pure, fail_if, modify, ⊤, ◌>>=◌, ◌>>◌,
}
use paymage.Host.Interface.{U256, Bytes}
use paymage.Planner.Amounts.{NoteAmount, ExtAmount, to_ext, checked_neg}
use paymage.Planner.Errors.{PlanError, Fallible}
use paymage.Planner.Combination.Defs.{Entry}
use paymage.Planner.Plan.Defs.{StepAction, SpendableNote, PlannedStep, plan, resolve}

-- `EncryptionPublicKey`, `NotePublicKey` and `String`: bytes.
abbrev pub NotePublicKey : Type 0
NotePublicKey = Bytes

abbrev pub EncryptionPublicKey : Type 0
EncryptionPublicKey = Bytes

abbrev pub Text : Type 0
Text = Bytes

pub data SpendTarget : Type 0 where
  transfer : (recipient_note : NotePublicKey) (recipient_enc : EncryptionPublicKey) → SpendTarget
  withdraw : (recipient : Text) → SpendTarget

pub data SpendSessionError : Type 0 where
  plan_error : PlanError → SpendSessionError
  complete ext_amount_overflow missing_withdraw_recipient : SpendSessionError

pub record Transact : Type 0 where
  pub input_commitments : List U256
  pub output_amounts : NoteAmount × NoteAmount
  pub ext_amount : ExtAmount
  pub ext_recipient : Text
  pub out_recipient_note_pubkeys : Option NotePublicKey × Option NotePublicKey
  pub out_recipient_encryption_pubkeys : Option EncryptionPublicKey × Option EncryptionPublicKey

pub record SpendSession : Type 0 where
  pub steps : List PlannedStep
  pub wallet : List SpendableNote
  pub pool_address : Text
  pub target : SpendTarget
  pub step_index : ℕ

-- `?` on a result of the planner.
unfoldable pub planned : {W A : Type 0} → Fallible A → Action W SpendSessionError A
planned m w = elim (m tt) [
  | ok a u ↦ ok a w
  | err e ↦ err (SpendSessionError.plan_error e)
  | trap ↦ trap
]

unfoldable pub validate_target : {W : Type 0} → SpendTarget → Action W SpendSessionError ⊤
validate_target (SpendTarget.withdraw []) w = err SpendSessionError.missing_withdraw_recipient
validate_target (SpendTarget.withdraw (c ∷ cs)) w = ok tt w
validate_target (SpendTarget.transfer recipient_note recipient_enc) w = ok tt w

module _ (sort : List Entry → List Entry) where
  unfoldable pub setup :
      List SpendableNote → NoteAmount → Text → SpendTarget → Action ⊤ SpendSessionError SpendSession
  setup wallet amount pool_address target = do
    validate_target target
    tx_plan ← planned (plan sort amount wallet)
    pure (record {
      steps = tx_plan;
      wallet = wallet;
      pool_address = pool_address;
      target = target;
      step_index = 0;
    })

abbrev pub is_done : SpendSession → Bool
is_done s = leb (length s.steps) s.step_index

abbrev pub is_consolidate : StepAction → Bool
is_consolidate (StepAction.consolidate output) = true
is_consolidate (StepAction.final outputs) = false

abbrev pub is_consolidate_step : SpendSession → Bool
is_consolidate_step s = elim (get_elem? s.steps s.step_index) [
  | none ↦ false
  | some step ↦ is_consolidate step.action
]

abbrev pub commitments : List SpendableNote → List U256
commitments [] = []
commitments (n ∷ ns) = n.commitment ∷ commitments ns

abbrev pub unwrap_or : Option NoteAmount → NoteAmount → NoteAmount
unwrap_or none d = d
unwrap_or (some x) d = x

-- Two outputs of a transfer: the change goes to the wallet, and without change the second output
-- is the recipient's too.
abbrev pub recipients : {K : Type 0} → Option NoteAmount → K → Option K × Option K
recipients (some change) k = (some k, none)
recipients none k = (some k, some k)

unfoldable pub materialize_final :
    {W : Type 0}
    → NoteAmount × Option NoteAmount
    → Text
    → SpendTarget
    → List SpendableNote
    → Action W SpendSessionError Transact
materialize_final outputs pool_address (SpendTarget.transfer recipient_note recipient_enc)
      resolved =
    pure (record {
      input_commitments = commitments resolved;
      output_amounts = (outputs.0, unwrap_or outputs.1 0);
      ext_amount = pos 0;
      ext_recipient = pool_address;
      out_recipient_note_pubkeys = recipients outputs.1 recipient_note;
      out_recipient_encryption_pubkeys = recipients outputs.1 recipient_enc;
    })
materialize_final outputs pool_address (SpendTarget.withdraw recipient) resolved = do
  value ← ok_or (to_ext outputs.0) SpendSessionError.ext_amount_overflow
  ext_amount ← ok_or (checked_neg value) SpendSessionError.ext_amount_overflow
  pure (record {
    input_commitments = commitments resolved;
    output_amounts = (unwrap_or outputs.1 0, 0);
    ext_amount = ext_amount;
    ext_recipient = recipient;
    out_recipient_note_pubkeys = (none, none);
    out_recipient_encryption_pubkeys = (none, none);
  })

unfoldable pub materialize_step :
    {W : Type 0}
    → StepAction
    → Text
    → SpendTarget
    → List SpendableNote
    → Action W SpendSessionError Transact
materialize_step (StepAction.consolidate output) pool_address target resolved = pure (record {
  input_commitments = commitments resolved;
  output_amounts = (output, 0);
  ext_amount = pos 0;
  ext_recipient = pool_address;
  out_recipient_note_pubkeys = (none, none);
  out_recipient_encryption_pubkeys = (none, none);
})
materialize_step (StepAction.final outputs) pool_address target resolved =
    materialize_final outputs pool_address target resolved

-- `SpendSession::step`
unfoldable pub step : Action SpendSession SpendSessionError (Option Transact)
step s = elim (is_done s) [
  | true ↦ ok none s
  | false ↦
      (do
        next ← or_trap (get_elem? s.steps s.step_index)
        resolved ← planned (resolve next s.wallet)
        transact ← materialize_step next.action s.pool_address s.target resolved
        pure (some transact))
        s
]

-- `wallet.retain(|n| n.commitment != commitment)`
abbrev pub retain : U256 → List SpendableNote → List SpendableNote
retain commitment [] = []
retain commitment (n ∷ ns) =
    let rest = retain commitment ns in if n.commitment == commitment then rest else n ∷ rest

abbrev pub remove_spent : List SpendableNote → List SpendableNote → List SpendableNote
remove_spent wallet [] = wallet
remove_spent wallet (n ∷ ns) = remove_spent (retain n.commitment wallet) ns

-- The wallet after a step.
abbrev pub settle : StepAction → U256 → List SpendableNote → List SpendableNote → List SpendableNote
settle (StepAction.consolidate output) commitment wallet spent =
    remove_spent wallet spent ++ record { commitment = commitment; amount = output } ∷ []
settle (StepAction.final outputs) commitment wallet spent = remove_spent wallet spent

-- `SpendSession::complete_step`
unfoldable pub complete_step : U256 × U256 → Action SpendSession SpendSessionError ⊤
complete_step output_commitments s =
    (do
      fail_if (is_done s) SpendSessionError.complete
      next ← or_trap (get_elem? s.steps s.step_index)
      spent ← planned (resolve next s.wallet)
      modify λ s. record s {
        wallet = settle next.action output_commitments.0 s.wallet spent;
        step_index = s.step_index + 1;
      })
      s

-- The loop of `execute_plan` over the results of `prove_and_submit`, and the transactions that it
-- has submitted; a submission without a result ends it.
unfoldable pub execute_plan :
    List (U256 × U256) → Action SpendSession SpendSessionError (List Transact)
execute_plan [] = pure []
execute_plan (output_commitments ∷ later) = do
  next ← step
  elim next [
    | none ↦ pure []
    | some transact ↦ do
      complete_step output_commitments
      rest ← execute_plan later
      pure (transact ∷ rest)
  ]
