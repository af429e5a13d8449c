-- ===== src/Planner/Plan/Chain.antt =====
-- The steps of a plan: what each spends and pays, and how they follow each other.
use paymage.Base.{
  ℕ, zero, suc, ◌+◌, ◌≡◌, ◌<◌, Option, none, some, List, [], ◌∷◌, length, get_elem?, get_or, All,
  arith, refl, sym, ap, ◌≤◌, ltb, Bool-cases, inl, inr,
}
use paymage.Host.Outcome.{Outcome, ok, err, trap, ok_or, ⊤, ◌>>=◌}
use paymage.Planner.Facts.{get_elem?-below}
use paymage.Planner.Amounts.{NoteAmount, checked_add, u128_max}
use paymage.Planner.Errors.{PlanError, Fallible}
use paymage.Planner.Combination.Choice.{sum_at}
use paymage.Planner.Plan.Defs.{
  StepAction, SpendableNote, StepNote, PlannedStep, from_spendable, from_amount, amounts_of,
  merge_steps, set_last,
}

-- A result that has the property, or an overflow, which only a total beyond a u128 gives.
abbrev pub Gives : ℕ → {A : Type 0} → (A → Type 0) → Outcome ⊤ PlanError A → Type 0
Gives total P (ok a w) = P a
Gives total P (err e) = (e ≡ PlanError.input_amount_overflow) × (u128_max < total)
Gives total P trap = ⊥

pub Gives-bind :
    {A B : Type 0} (total : ℕ) (P : A → Type 0) (Q : B → Type 0) (m : Fallible A)
    (f : A → Fallible B)
    → Gives total P (m tt)
    → ((a : A) → P a → Gives total Q (f a tt))
    → Gives total Q ((m >>= f) tt)
Gives-bind {A} {B} total P Q m f h k = go (m tt) h
  where
    go :
        (o : Outcome ⊤ PlanError A)
        → Gives total P o
        → Gives total Q (elim o as (λ _. Outcome ⊤ PlanError B) [
          | ok a w' ↦ f a w'
          | err e ↦ err e
          | trap ↦ trap
        ])
    go (ok a w') h = k a h
    go (err e) h = h
    go trap h = h

checked_add-Gives :
    (total a b : NoteAmount)
    → a + b ≤ total
    → Gives total (λ t. t ≡ a + b) (ok_or (checked_add a b) PlanError.input_amount_overflow tt)
unfolding checked_add
checked_add-Gives total a b within = elim (Bool-cases (ltb u128_max (a + b))) [
  | inl beyond ↦ rw beyond (refl, ground arith)
  | inr fits ↦ rw fits refl
]

abbrev pub or_zero : Option NoteAmount → NoteAmount
or_zero none = 0
or_zero (some x) = x

abbrev pub amount_or_zero : Option StepNote → NoteAmount
amount_or_zero none = 0
amount_or_zero (some n) = n.amount

-- What a step spends, and what it pays.
abbrev pub input_sum : PlannedStep → NoteAmount
input_sum step = step.inputs.0.amount + amount_or_zero step.inputs.1

abbrev pub output_sum : StepAction → NoteAmount
output_sum (StepAction.consolidate output) = output
output_sum (StepAction.final outputs) = outputs.0 + or_zero outputs.1

abbrev pub IsBalanced : PlannedStep → Type 0
IsBalanced step = input_sum step ≡ output_sum step.action

module _ (notes : List SpendableNote) where
  -- The notes at the indices.
  abbrev pub AreAt : List ℕ → List SpendableNote → Type 0
  AreAt [] [] = Unit
  AreAt [] (n ∷ ns) = ⊥
  AreAt (i ∷ is) [] = ⊥
  AreAt (i ∷ is) (n ∷ ns) = (get_elem? notes i ≡ some n) × AreAt is ns

module _ (amount : NoteAmount) (change : Option NoteAmount) where
  -- The first step spends `prev` and the next of the notes, where there is one; each step but the
  -- last merges its two inputs into one note, which the next step spends; and the last, which takes
  -- the last of the notes, pays the amount and the change.
  abbrev pub Chain : StepNote → List SpendableNote → List PlannedStep → Type 0
  Chain prev ns [] = ⊥
  Chain prev [] (step ∷ rest) =
      (step.inputs ≡ (prev, none)) × (step.action ≡ StepAction.final (amount, change)) × (rest ≡ [])
  Chain prev (n ∷ []) (step ∷ rest) =
      (step.inputs ≡ (prev, some (from_spendable n)))
      × (step.action ≡ StepAction.final (amount, change))
      × (rest ≡ [])
  Chain prev (n ∷ next ∷ ns) (step ∷ rest) =
      (step.inputs ≡ (prev, some (from_spendable n)))
      × (step.action ≡ StepAction.consolidate (prev.amount + n.amount))
      × Chain (from_amount (prev.amount + n.amount)) (next ∷ ns) rest

  pub record IsRun (notes : List SpendableNote) (prev : StepNote) (rest : List ℕ)
      (steps : List PlannedStep) : Type 0 where
    pub merged : List SpendableNote
    pub taken : AreAt notes rest merged
    pub chain : Chain prev merged steps
    pub balanced : All IsBalanced steps

pub get_or-amounts :
    (notes : List SpendableNote) (i : ℕ) (n : SpendableNote)
    → get_elem? notes i ≡ some n
    → get_or (amounts_of notes) i 0 ≡ n.amount
get_or-amounts [] i n h = cc
get_or-amounts (x ∷ xs) zero n h = ground arith
get_or-amounts (x ∷ xs) (suc i) n h = get_or-amounts xs i n h

pub length-amounts_of : (notes : List SpendableNote) → length (amounts_of notes) ≡ length notes
length-amounts_of [] = refl
length-amounts_of (n ∷ ns) = omega (arith, length-amounts_of ns)

module _ (notes : List SpendableNote) (amount : NoteAmount) (change : Option NoteAmount) where
  abbrev pub closed : List PlannedStep → List PlannedStep
  closed steps = set_last (StepAction.final (amount, change)) steps

  abbrev step_of : StepNote → SpendableNote → NoteAmount → PlannedStep
  step_of prev n t = record {
    inputs = (prev, some (from_spendable n));
    action = StepAction.consolidate t;
  }

  -- A merging step before the others.
  IsRun-cons :
      (prev : StepNote) (n : SpendableNote) (t i j : ℕ) (is : List ℕ) (steps : List PlannedStep)
      → t ≡ prev.amount + n.amount
      → get_elem? notes i ≡ some n
      → IsRun amount change notes (from_amount t) (j ∷ is) (closed steps)
      → IsRun amount change notes prev (i ∷ j ∷ is) (closed (step_of prev n t ∷ steps))
  IsRun-cons prev n t i j is [] e at run = elim (nonempty run.merged run.chain) [ ]
    where
      nonempty : (ns : List SpendableNote) → Chain amount change (from_amount t) ns [] → ⊥
      nonempty ns h = h
  IsRun-cons prev n t i j is (s ∷ ss) e at run =
      wide (closed (s ∷ ss)) run.merged run.taken run.chain run.balanced refl
    where
      wide :
          (all : List PlannedStep) (ns : List SpendableNote)
          → AreAt notes (j ∷ is) ns
          → Chain amount change (from_amount t) ns all
          → All IsBalanced all
          → closed (s ∷ ss) ≡ all
          → IsRun amount change notes prev (i ∷ j ∷ is) (step_of prev n t ∷ closed (s ∷ ss))
      wide all [] taken chain balanced q = elim taken [ ]
      wide all (x ∷ xs) taken chain balanced q = rw q (record {
        merged = n ∷ x ∷ xs;
        taken = (at, taken);
        chain = (refl, ap StepAction.consolidate e, rw e at chain);
        balanced = (sym e, balanced);
      })

  pub merge_steps-IsRun :
      (all : NoteAmount) (is : List ℕ) (i : ℕ) (prev : StepNote) (sum : NoteAmount)
      → All (λ j. j < length notes) (i ∷ is)
      → prev.amount ≡ sum
      → sum + sum_at (amounts_of notes) (i ∷ is) ≡ amount + or_zero change
      → amount + or_zero change ≤ all
      → Gives all
          (λ steps. IsRun amount change notes prev (i ∷ is) (closed steps))
          (merge_steps notes (i ∷ is) sum prev tt)
  unfolding merge_steps
  merge_steps-IsRun all [] i prev sum range e total within =
      let (n, at) = get_elem?-below notes i range.0 in
      rw at (
        Gives-bind all (λ t. t ≡ sum + n.amount) _
          (ok_or (checked_add sum n.amount) PlanError.input_amount_overflow) _
          (checked_add-Gives all sum n.amount (omega (arith, get_or-amounts notes i n at)))
          λ t et. record {
            merged = n ∷ [];
            taken = (at, tt);
            chain = (refl, refl, refl);
            balanced = (omega (arith, get_or-amounts notes i n at), tt);
          })
  merge_steps-IsRun all (j ∷ js) i prev sum range e total within =
      let (n, at) = get_elem?-below notes i range.0 in
      let rest =
        λ (t : ℕ) (left : t + sum_at (amounts_of notes) (j ∷ js) ≡ amount + or_zero change).
          merge_steps-IsRun all js j (from_amount t) t range.1 refl left within in
      rw at (
        Gives-bind all (λ t. t ≡ sum + n.amount) _
          (ok_or (checked_add sum n.amount) PlanError.input_amount_overflow) _
          (checked_add-Gives all sum n.amount (omega (arith, get_or-amounts notes i n at)))
          λ t et.
            Gives-bind all
              (λ steps. IsRun amount change notes (from_amount t) (j ∷ js) (closed steps)) _
              (merge_steps notes (j ∷ js) t (from_amount t)) _
              (rest t (omega (arith, get_or-amounts notes i n at)))
              λ steps run. IsRun-cons prev n t i j js steps (omega arith) at run)
