-- ===== src/Planner/Plan/Defs.antt =====
-- `plan` and `PlannedStep::resolve`.
use paymage.Base.{
  ℕ, ◌==◌, not, ◌&&◌, leb, ltb, Bool, true, false, Option, none, some, List, [], ◌∷◌, length,
  get_elem?, if◌then◌else◌,
}
use paymage.Host.Outcome.{ok_or, or_trap, pure, fail, fail_if, skip, ⊤, ◌>>=◌, ◌>>◌}
use paymage.Host.Interface.{U256}
use paymage.Planner.Amounts.{NoteAmount, checked_add}
use paymage.Planner.Errors.{PlanError, Fallible}
use paymage.Planner.Combination.Defs.{Entry, CombinationResult, transaction_limit}
use paymage.Planner.Combination.Search.{find_combination}

pub data StepAction : Type 0 where
  consolidate : (output : NoteAmount) → StepAction
  final : (outputs : NoteAmount × Option NoteAmount) → StepAction

pub record SpendableNote : Type 0 where
  pub commitment : U256
  pub amount : NoteAmount

-- A step's input; `none` for a note that does not exist yet when the plan is made.
pub record StepNote : Type 0 where
  pub commitment : Option U256
  pub amount : NoteAmount

pub record PlannedStep : Type 0 where
  pub inputs : StepNote × Option StepNote
  pub action : StepAction

abbrev pub from_spendable : SpendableNote → StepNote
from_spendable note = record { commitment = some note.commitment; amount = note.amount }

abbrev pub from_amount : NoteAmount → StepNote
from_amount amount = record { commitment = none; amount = amount }

abbrev pub amounts_of : List SpendableNote → List NoteAmount
amounts_of [] = []
amounts_of (n ∷ ns) = n.amount ∷ amounts_of ns

-- The chosen notes, and the change.
abbrev pub selection : CombinationResult → Option (List ℕ × Option NoteAmount)
selection CombinationResult.impossible = none
selection (CombinationResult.one_exact i) = some (i ∷ [], none)
selection (CombinationResult.two_exact i j) = some (i ∷ j ∷ [], none)
selection (CombinationResult.one_overshoot i excess) = some (i ∷ [], some excess)
selection (CombinationResult.two_overshoot i j excess) = some (i ∷ j ∷ [], some excess)
selection (CombinationResult.exact_k indices) = some (indices, none)
selection (CombinationResult.overshoot indices excess) = some (indices, some excess)

-- for &index in &indices
unfoldable pub check_range : List SpendableNote → List ℕ → Fallible ⊤
check_range notes [] = skip
check_range notes (index ∷ rest) = do
  fail_if (leb (length notes) index) (PlanError.note_index_out_of_range index)
  check_range notes rest

-- for index in indices.iter().skip(1): the steps, in order.
unfoldable pub merge_steps :
    List SpendableNote → List ℕ → NoteAmount → StepNote → Fallible (List PlannedStep)
merge_steps notes [] sum prev_note = pure []
merge_steps notes (index ∷ rest) sum prev_note = do
  note ← or_trap (get_elem? notes index)
  next_sum ← ok_or (checked_add sum note.amount) PlanError.input_amount_overflow
  steps ← merge_steps notes rest next_sum (from_amount next_sum)
  pure (
      record {
        inputs = (prev_note, some (from_spendable note));
        action = StepAction.consolidate next_sum;
      }
      ∷ steps)

-- `if let Some(last_step) = steps.last_mut()`
abbrev pub set_last : StepAction → List PlannedStep → List PlannedStep
set_last action [] = []
set_last action (step ∷ []) = record step { action = action } ∷ []
set_last action (step ∷ next ∷ rest) = step ∷ set_last action (next ∷ rest)

abbrev pub last : List PlannedStep → Option PlannedStep
last [] = none
last (step ∷ []) = some step
last (step ∷ next ∷ rest) = last (next ∷ rest)

abbrev pub is_final : StepAction → Bool
is_final (StepAction.consolidate output) = false
is_final (StepAction.final outputs) = true

-- `TransactionPlan::assemble`: the last step is a final one.
abbrev pub assemble : List PlannedStep → Option (List PlannedStep)
assemble steps = elim (last steps) [
  | none ↦ none
  | some step ↦ if is_final step.action then some steps else none
]

-- The steps that spend the chosen notes.
unfoldable pub build_steps :
    List SpendableNote → NoteAmount → List ℕ → Option NoteAmount → Fallible (List PlannedStep)
build_steps notes amount [] change = or_trap none
build_steps notes amount (index ∷ []) change = do
  note ← or_trap (get_elem? notes index)
  pure (
      record { inputs = (from_spendable note, none); action = StepAction.final (amount, change) }
      ∷ [])
build_steps notes amount (index ∷ next ∷ rest) change = do
  note ← or_trap (get_elem? notes index)
  steps ← merge_steps notes (next ∷ rest) note.amount (from_spendable note)
  pure (set_last (StepAction.final (amount, change)) steps)

module _ (sort : List Entry → List Entry) where
  unfoldable pub plan : NoteAmount → List SpendableNote → Fallible (List PlannedStep)
  plan amount [] = fail PlanError.no_spendable_notes
  plan amount (n ∷ ns) =
      let notes = n ∷ ns in
      do
        combo ← find_combination sort (amounts_of notes) amount
        chosen ← ok_or (selection combo) PlanError.no_combination
        fail_if (ltb transaction_limit (length chosen.0))
            (PlanError.too_many_notes (length chosen.0) transaction_limit)
        check_range notes chosen.0
        steps ← build_steps notes amount chosen.0 chosen.1
        ok_or (assemble steps) PlanError.invalid_plan

-- `notes.iter().find(|note| note.commitment == commitment)`
abbrev pub find_note : U256 → List SpendableNote → Option SpendableNote
find_note commitment [] = none
find_note commitment (n ∷ ns) =
    let rest = find_note commitment ns in if n.commitment == commitment then some n else rest

abbrev pub is_excluded : Option U256 → U256 → Bool
is_excluded none c = false
is_excluded (some e) c = e == c

-- The notes of the amount, less the excluded one.
abbrev pub matches : NoteAmount → Option U256 → List SpendableNote → List SpendableNote
matches amount excluded [] = []
matches amount excluded (n ∷ ns) =
    let rest = matches amount excluded ns in
    if (n.amount == amount) && not (is_excluded excluded n.commitment) then n ∷ rest else rest

abbrev pub commitment_of : Option StepNote → Option U256
commitment_of none = none
commitment_of (some note) = note.commitment

-- An input with a commitment: the note that has it, if the amount is the input's.
abbrev pub known_note : U256 → NoteAmount → List SpendableNote → Fallible SpendableNote
known_note commitment amount notes = do
  note ← ok_or (find_note commitment notes) (PlanError.commitment_not_found commitment)
  fail_if (not (note.amount == amount))
      (PlanError.note_amount_mismatch commitment note.amount amount)
  pure note

-- An input without one: the only match.
abbrev pub only_match : NoteAmount → List SpendableNote → Fallible SpendableNote
only_match amount [] = fail (PlanError.no_note_for_amount amount)
only_match amount (note ∷ []) = pure note
only_match amount (note ∷ other ∷ more) = fail (PlanError.ambiguous_note_for_amount amount)

unfoldable pub resolve_input_note :
    StepNote → List SpendableNote → Option StepNote → Fallible SpendableNote
resolve_input_note input notes sibling = elim input.commitment [
  | some commitment ↦ known_note commitment input.amount notes
  | none ↦ only_match input.amount (matches input.amount (commitment_of sibling) notes)
]

-- `PlannedStep::resolve`
unfoldable pub resolve : PlannedStep → List SpendableNote → Fallible (List SpendableNote)
resolve step notes = do
  first ← resolve_input_note step.inputs.0 notes step.inputs.1
  elim step.inputs.1 [
    | none ↦ pure (first ∷ [])
    | some input ↦ do
      second ← resolve_input_note input notes (some step.inputs.0)
      pure (first ∷ second ∷ [])
  ]
