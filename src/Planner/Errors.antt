-- ===== src/Planner/Errors.antt =====
-- `PlanError` (app/crates/core/tx-planner/src/plan/error.rs). The reason of an internal error is a
-- text, which nothing reads.
use paymage.Base.{ℕ}
use paymage.Host.Outcome.{Action, ⊤}
use paymage.Host.Interface.{U256}
use paymage.Planner.Amounts.{NoteAmount}

pub data PlanError : Type 0 where
  no_spendable_notes no_combination : PlanError
  too_many_notes : (selected max_notes : ℕ) → PlanError
  note_index_out_of_range : (index : ℕ) → PlanError
  input_amount_overflow internal_error invalid_plan : PlanError
  commitment_not_found : (commitment : U256) → PlanError
  note_amount_mismatch : (commitment : U256) (actual expected : NoteAmount) → PlanError
  no_note_for_amount ambiguous_note_for_amount : (amount : NoteAmount) → PlanError

-- A computation that may fail or panic, and keeps no state.
abbrev pub Fallible : Type 0 → Type 0
Fallible A = Action ⊤ PlanError A
