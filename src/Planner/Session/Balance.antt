-- ===== src/Planner/Session/Balance.antt =====
-- What the transactions of a session move: no value appears and none is lost.
use paymage.Base.{
  ℕ, zero, suc, ◌+◌, ◌≡◌, Option, none, some, List, [], ◌∷◌, get_elem?, All, sum, arith, refl, ◌∙◌,
  Bool-cases, inl, inr, pos, negsuc, pos_part, neg_part,
}
use paymage.Host.Outcome.{Outcome, ok, err, trap, ok_or, or_trap, ⊤, pure, ◌>>=◌, >>=-elim}
use paymage.Planner.Amounts.{NoteAmount, ExtAmount, to_ext, checked_neg}
use paymage.Planner.Errors.{PlanError, Fallible}
use paymage.Planner.Facts.{or_trap-some, ok_or-some}
use paymage.Planner.Plan.Defs.{StepAction, SpendableNote, PlannedStep, amounts_of, resolve}
use paymage.Planner.Plan.Chain.{IsBalanced, output_sum, or_zero}
use paymage.Planner.Plan.Resolve.{Held, resolve-IsResolved}
use paymage.Planner.Session.Defs.{
  SpendTarget, SpendSessionError, SpendSession, Transact, Text, planned, step, is_done, commitments,
  unwrap_or, materialize_final, materialize_step,
}

-- A planner's result in a session.
pub planned-ok :
    {W A : Type 0} (m : Fallible A) (a : A) (w w' : W)
    → planned m w ≡ ok a w'
    → (m tt ≡ ok a tt) × (w' ≡ w)
unfolding planned
planned-ok {W} {A} m a w w' h = go (m tt) refl h
  where
    go :
        (o : Outcome ⊤ PlanError A)
        → m tt ≡ o
        → (elim o as (λ _. Outcome W SpendSessionError A) [
          | ok a u ↦ ok a w
          | err e ↦ err (SpendSessionError.plan_error e)
          | trap ↦ trap
        ])
          ≡ ok a w'
        → (m tt ≡ ok a tt) × (w' ≡ w)
    go (ok b u) e h = (ground arith, ground arith)
    go (err x) e h = cc
    go trap e h = cc

unwrap_or-or_zero : (o : Option NoteAmount) → unwrap_or o 0 ≡ or_zero o
unwrap_or-or_zero none = refl
unwrap_or-or_zero (some x) = refl

-- A transaction that pays out what its inputs hold: into its outputs, and out of the pool.
pub record PaysOut (inputs : List SpendableNote) (total : NoteAmount) (t : Transact) : Type 0 where
  pub named : t.input_commitments ≡ commitments inputs
  pub balance : total ≡ t.output_amounts.0 + t.output_amounts.1 + neg_part t.ext_amount
  pub no_deposit : pos_part t.ext_amount ≡ 0

checked_neg-pos :
    (v : ℕ) (x : ExtAmount) → checked_neg (pos v) ≡ some x → (neg_part x ≡ v) × (pos_part x ≡ 0)
unfolding checked_neg
checked_neg-pos zero x h = let e : x ≡ pos 0 = ground arith in rw e (refl, refl)
checked_neg-pos (suc v) x h = let e : x ≡ negsuc v = ground arith in rw e (refl, refl)

to_ext-some : (v : ℕ) (x : ExtAmount) → to_ext v ≡ some x → x ≡ pos v
unfolding to_ext
to_ext-some v x h = ground arith

module _ {W : Type 0} (pool_address : Text) (inputs : List SpendableNote) where
  materialize_final-PaysOut :
      (outputs : NoteAmount × Option NoteAmount) (target : SpendTarget) (t : Transact) (w w' : W)
      → materialize_final outputs pool_address target inputs w ≡ ok t w'
      → PaysOut inputs (outputs.0 + or_zero outputs.1) t
  unfolding materialize_final
  materialize_final-PaysOut outputs (SpendTarget.transfer note enc) t w w' h =
      let e0 : t.output_amounts ≡ (outputs.0, unwrap_or outputs.1 0) = ground arith in
      let e1 : t.ext_amount ≡ pos 0 = ground arith in
      record {
        named = ground arith;
        balance = rw (e0, e1) (omega (arith, unwrap_or-or_zero outputs.1));
        no_deposit = rw e1 refl;
      }
  materialize_final-PaysOut outputs (SpendTarget.withdraw recipient) t w w' h =
      >>=-elim (ok_or (to_ext outputs.0) SpendSessionError.ext_amount_overflow) _ h λ value w₁ e h₁.
        >>=-elim (ok_or (checked_neg value) SpendSessionError.ext_amount_overflow) _ h₁
          λ ext w₂ e₂ h₂.
            let v : value ≡ pos outputs.0 =
              to_ext-some outputs.0 value
                (ok_or-some (to_ext outputs.0) SpendSessionError.ext_amount_overflow value w w₁
                  e).0 in
            let x = checked_neg-pos outputs.0 ext (
              rw v at
                (ok_or-some (checked_neg value) SpendSessionError.ext_amount_overflow ext w₁ w₂
                  e₂).0) in
            let e0 : t.output_amounts ≡ (unwrap_or outputs.1 0, 0) = ground arith in
            let e1 : t.ext_amount ≡ ext = ground arith in
            record {
              named = ground arith;
              balance = rw (e0, e1) (omega (arith, unwrap_or-or_zero outputs.1, x.0));
              no_deposit = rw e1 x.1;
            }

  materialize_step-PaysOut :
      (action : StepAction) (target : SpendTarget) (t : Transact) (w w' : W)
      → materialize_step action pool_address target inputs w ≡ ok t w'
      → PaysOut inputs (output_sum action) t
  unfolding materialize_step
  materialize_step-PaysOut (StepAction.consolidate output) target t w w' h =
      let e0 : t.output_amounts ≡ (output, 0) = ground arith in
      let e1 : t.ext_amount ≡ pos 0 = ground arith in
      record { named = ground arith; balance = rw (e0, e1) (omega arith); no_deposit = rw e1 refl }
  materialize_step-PaysOut (StepAction.final outputs) target t w w' h =
      materialize_final-PaysOut outputs target t w w' h

All-get_elem? :
    (P : PlannedStep → Type 0) (xs : List PlannedStep) (i : ℕ) (x : PlannedStep)
    → All P xs
    → get_elem? xs i ≡ some x
    → P x
All-get_elem? P [] i x a h = cc
All-get_elem? P (y ∷ ys) zero x a h = let e : y ≡ x = ground arith in rw (← e) a.0
All-get_elem? P (y ∷ ys) (suc i) x a h = All-get_elem? P ys i x a.1 h

-- The transaction's inputs are notes of the session's wallet.
pub record Conserves (s : SpendSession) (t : Transact) : Type 0 where
  pub inputs : List SpendableNote
  pub held : All (Held s.wallet) inputs
  pub pays : PaysOut inputs (sum (amounts_of inputs)) t

-- In a session whose steps are balanced, a transaction that `step` returns spends notes of the
-- wallet, and what they hold is what goes into its two outputs and, with a withdrawal, out of the
-- pool; it takes no deposit.
pub step-Conserves :
    (s s' : SpendSession) (t : Transact)
    → All IsBalanced s.steps
    → step s ≡ ok (some t) s'
    → Conserves s t
unfolding step
step-Conserves s s' t balanced h = elim (Bool-cases (is_done s)) [
  | inl over ↦ absurd (ground arith)
  | inr more ↦ go (ground arith)
]
  where
    go :
        (do
          next ← or_trap (get_elem? s.steps s.step_index)
          resolved ← planned (resolve next s.wallet)
          transact ← materialize_step next.action s.pool_address s.target resolved
          pure (some transact))
            s
          ≡ ok (some t) s'
        → Conserves s t
    go h = >>=-elim (or_trap (get_elem? s.steps s.step_index)) _ h λ next s₁ e₁ h₁.
        >>=-elim (planned (resolve next s.wallet)) _ h₁ λ inputs s₂ e₂ h₂.
          >>=-elim (materialize_step next.action s.pool_address s.target inputs) _ h₂ λ t' s₃ e₃ h₃.
            let same : t' ≡ t = ground arith in
            let found =
              resolve-IsResolved s.wallet next inputs
                (planned-ok (resolve next s.wallet) inputs s₁ s₂ e₂).0 in
            let p =
              materialize_step-PaysOut s.pool_address inputs next.action s.target t' s₂ s₃ e₃ in
            let b : sum (amounts_of inputs) ≡ output_sum next.action =
              found.sums
              ∙ All-get_elem? IsBalanced s.steps s.step_index next balanced
                  (or_trap-some (get_elem? s.steps s.step_index) next s s₁ e₁).0 in
            record { inputs = inputs; held = found.held; pays = rw (b, ← same) p }
