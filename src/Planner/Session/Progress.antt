-- ===== src/Planner/Session/Progress.antt =====
-- A session runs to its end.
use paymage.Base.{
  ℕ, zero, suc, ◌+◌, ◌≡◌, ◌≤◌, true, false, none, some, List, [], ◌∷◌, length, get_elem?, All, Elem,
  arith, refl, ◌∙◌, inl, inr, pos, negsuc,
}
use paymage.Host.Outcome.{ok, >>=-ok, ok_or, or_trap, ◌>>=◌, fail_if}
use paymage.Host.Interface.{U256, i128_max}
use paymage.Planner.Amounts.{NoteAmount, ExtAmount, to_ext, checked_neg}
use paymage.Planner.Facts.{or_trap-eq_ok, ok_or-eq_ok}
use paymage.Planner.Errors.{Fallible}
use paymage.Planner.Plan.Defs.{StepAction, SpendableNote, PlannedStep, resolve, find_note}
use paymage.Planner.Session.Defs.{
  SpendTarget, SpendSession, SpendSessionError, Transact, Text, planned, step, complete_step,
  execute_plan, is_done, commitments, materialize_final, materialize_step, settle, retain,
}
use paymage.Planner.Session.Wallet.{find_note-retain}

-- A withdrawal's amount is an i128.
abbrev pub IsPayable : SpendTarget → NoteAmount → Type 0
IsPayable (SpendTarget.transfer note enc) amount = Unit
IsPayable (SpendTarget.withdraw recipient) amount = amount ≤ i128_max

abbrev pub IsPayableStep : SpendTarget → StepAction → Type 0
IsPayableStep target (StepAction.consolidate output) = Unit
IsPayableStep target (StepAction.final outputs) = IsPayable target outputs.0

negated : (v : ℕ) → (x : ExtAmount) × (checked_neg (pos v) ≡ some x)
unfolding checked_neg
negated zero = (pos 0, refl)
negated (suc v) = (negsuc v, refl)

materialize_step-ok :
    (action : StepAction) (pool_address : Text) (target : SpendTarget) (notes : List SpendableNote)
    (s : SpendSession)
    → IsPayableStep target action
    → (t : Transact) × (materialize_step action pool_address target notes s ≡ ok t s)
unfolding materialize_step materialize_final to_ext
materialize_step-ok (StepAction.consolidate output) pool_address target notes s h = (_, refl)
materialize_step-ok (StepAction.final outputs) pool_address (SpendTarget.transfer note enc) notes s
      h =
    (_, refl)
materialize_step-ok (StepAction.final outputs) pool_address (SpendTarget.withdraw recipient) notes s
      h =
    let fits : to_ext outputs.0 ≡ some (pos outputs.0) = ground arith in
    let (x, e) = negated outputs.0 in
    (
      _,
      >>=-ok (ok_or (to_ext outputs.0) SpendSessionError.ext_amount_overflow) _
            (ok_or-eq_ok SpendSessionError.ext_amount_overflow s fits)
          ∙ >>=-ok (ok_or (checked_neg (pos outputs.0)) SpendSessionError.ext_amount_overflow) _
              (ok_or-eq_ok SpendSessionError.ext_amount_overflow s e),
    )

planned-eq_ok :
    {A : Type 0} (m : Fallible A) (a : A) (s : SpendSession) → m tt ≡ ok a tt → planned m s ≡ ok a s
unfolding planned
planned-eq_ok m a s h = rw (planned, h) refl

-- The session after its current step, where the step's inputs are `spent`.
abbrev pub after : SpendSession → PlannedStep → List SpendableNote → U256 → SpendSession
after s next spent c = record s {
  wallet = settle next.action c s.wallet spent;
  step_index = s.step_index + 1;
}

module _ (s : SpendSession) (next : PlannedStep) (spent : List SpendableNote)
    (more : is_done s ≡ false) (at : get_elem? s.steps s.step_index ≡ some next)
    (found : resolve next s.wallet tt ≡ ok spent tt) where
  step-some :
      (t : Transact)
      → materialize_step next.action s.pool_address s.target spent s ≡ ok t s
      → step s ≡ ok (some t) s
  unfolding step
  step-some t e =
      rw (step, more)
        (>>=-ok (or_trap (get_elem? s.steps s.step_index)) _ (or_trap-eq_ok s at)
          ∙ >>=-ok (planned (resolve next s.wallet)) _
              (planned-eq_ok (resolve next s.wallet) spent s found)
          ∙ >>=-ok (materialize_step next.action s.pool_address s.target spent) _ e)

  complete_step-after : (out : U256 × U256) → complete_step out s ≡ ok tt (after s next spent out.0)
  unfolding complete_step
  complete_step-after out =
      let open_still : fail_if (is_done s) SpendSessionError.complete s ≡ ok tt s = rw more refl in
      >>=-ok (fail_if (is_done s) SpendSessionError.complete) _ open_still
      ∙ >>=-ok (or_trap (get_elem? s.steps s.step_index)) _ (or_trap-eq_ok s at)
      ∙ >>=-ok (planned (resolve next s.wallet)) _
          (planned-eq_ok (resolve next s.wallet) spent s found)

  execute_plan-cons :
      (out : U256 × U256) (later : List (U256 × U256)) (t : Transact) (ts : List Transact)
      (s' : SpendSession)
      → materialize_step next.action s.pool_address s.target spent s ≡ ok t s
      → execute_plan later (after s next spent out.0) ≡ ok ts s'
      → execute_plan (out ∷ later) s ≡ ok (t ∷ ts) s'
  unfolding execute_plan
  execute_plan-cons out later t ts s' e rest =
      >>=-ok step _ (step-some t e)
      ∙ >>=-ok (complete_step out) _ (complete_step-after out)
      ∙ >>=-ok (execute_plan later) _ rest

execute_plan-done :
    (outs : List (U256 × U256)) (s : SpendSession)
    → is_done s ≡ true
    → execute_plan outs s ≡ ok [] s
unfolding execute_plan step
execute_plan-done [] s h = refl
execute_plan-done (out ∷ outs) s h =
    let over : step s ≡ ok none s = rw (step, h) refl in rw (execute_plan, ◌>>=◌, over) refl

-- The steps from an index on.
pub record IsSuffix (all : List PlannedStep) (i : ℕ) (rest : List PlannedStep) : Type 0 where
  pub measured : length all ≡ i + length rest
  pub elements : (j : ℕ) → get_elem? all (i + j) ≡ get_elem? rest j

pub IsSuffix-tail :
    (all : List PlannedStep) (i : ℕ) (x : PlannedStep) (rest : List PlannedStep)
    → IsSuffix all i (x ∷ rest)
    → IsSuffix all (i + 1) rest
IsSuffix-tail all i x rest h = record {
  measured = omega (arith, h.measured);
  elements = λ j. let e : i + 1 + j ≡ i + suc j = omega arith in rw e (h.elements (suc j));
}

IsSuffix-head :
    (all : List PlannedStep) (i : ℕ) (x : PlannedStep) (rest : List PlannedStep)
    → IsSuffix all i (x ∷ rest)
    → get_elem? all i ≡ some x
IsSuffix-head all i x rest h = let e : i + 0 ≡ i = omega arith in rw e at (h.elements 0)

-- The amounts of the merged notes.
abbrev pub merges : NoteAmount → List SpendableNote → List NoteAmount
merges total [] = []
merges total (n ∷ []) = []
merges total (n ∷ next ∷ ns) = (total + n.amount) ∷ merges (total + n.amount) (next ∷ ns)

abbrev pub Known : List SpendableNote → List SpendableNote → Type 0
Known wallet ns = All (λ n. find_note n.commitment wallet ≡ some n) ns

-- The loop reaches the end of the plan, with this wallet and so many transactions.
pub record Finishes (outs : List (U256 × U256)) (s : SpendSession) (wallet : List SpendableNote)
    (count : ℕ) : Type 0 where
  pub transacts : List Transact
  pub end : SpendSession
  pub runs : execute_plan outs s ≡ ok transacts end
  pub complete : is_done end ≡ true
  pub left : end.wallet ≡ wallet
  pub submitted : length transacts ≡ count

pub Known-retain :
    (wallet : List SpendableNote) (c : U256) (ns : List SpendableNote)
    → Known wallet ns
    → ¬ Elem c (commitments ns)
    → Known (retain c wallet) ns
Known-retain wallet c [] h out = tt
Known-retain wallet c (n ∷ ns) h out = (
  find_note-retain n.commitment c wallet (λ e. out (inl e)) ∙ h.0,
  Known-retain wallet c ns h.1 λ e. out (inr e),
)

-- One step that goes well, and what comes after it.
pub one_step :
    (s : SpendSession) (next : PlannedStep) (rest : List PlannedStep) (spent : List SpendableNote)
    (out : U256 × U256) (outs : List (U256 × U256)) (wallet : List SpendableNote) (count : ℕ)
    → IsSuffix s.steps s.step_index (next ∷ rest)
    → resolve next s.wallet tt ≡ ok spent tt
    → IsPayableStep s.target next.action
    → Finishes outs (after s next spent out.0) wallet count
    → Finishes (out ∷ outs) s wallet (suc count)
one_step s next rest spent out outs wallet count suffix found payable f =
    let (t, e) = materialize_step-ok next.action s.pool_address s.target spent s payable in
    let more : is_done s ≡ false = ground (arith, suffix.measured) in
    record {
      transacts = t ∷ f.transacts;
      end = f.end;
      runs =
          execute_plan-cons s next spent more (IsSuffix-head s.steps s.step_index next rest suffix)
            found out outs t f.transacts f.end e f.runs;
      complete = f.complete;
      left = f.left;
      submitted = omega (arith, f.submitted);
    }

-- Nothing is left to do.
pub nothing_left :
    (s : SpendSession) (outs : List (U256 × U256)) (wallet : List SpendableNote)
    → IsSuffix s.steps s.step_index []
    → s.wallet ≡ wallet
    → Finishes outs s wallet 0
nothing_left s outs wallet suffix e =
    let over : is_done s ≡ true = ground (arith, suffix.measured) in
    record {
      transacts = [];
      end = s;
      runs = execute_plan-done outs s over;
      complete = over;
      left = e;
      submitted = refl;
    }
