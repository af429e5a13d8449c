-- ===== src/Planner/Plan/Correct.antt =====
-- `plan` as a whole: every way in which it ends.
use paymage.Base.{
  ℕ, ◌+◌, ◌≡◌, ◌<◌, ◌≤◌, ltb, Option, none, some, List, [], ◌∷◌, length, get_elem?, All, sum, arith,
  refl, ap, Bool-cases, ◌⊎◌, inl, inr,
}
use paymage.Host.Outcome.{Outcome, ok, err, trap, ok_or, ⊤, ◌>>=◌, ◌>>◌, fail_if}
use paymage.Planner.Facts.{get_elem?-below}
use paymage.Planner.Amounts.{NoteAmount, u128_max}
use paymage.Planner.Errors.{PlanError, Fallible}
use paymage.Planner.Combination.Defs.{Entry, CombinationResult, transaction_limit}
use paymage.Planner.Combination.Search.{find_combination}
use paymage.Planner.Combination.Choice.{IsChoice}
use paymage.Planner.Combination.Find.{IsSort, IsSound, find_combination-IsSound}
use paymage.Planner.Combination.Overflow.{Overflows, sum_at-le-sum}
use paymage.Planner.Combination.Total.{find_combination-Overflows}
use paymage.Planner.Plan.Defs.{
  SpendableNote, PlannedStep, from_spendable, amounts_of, merge_steps, build_steps, assemble,
  selection, check_range, plan,
}
use paymage.Planner.Plan.Assemble.{in_wallet, check_range-ok, assemble-Chain}
use paymage.Planner.Plan.Chain.{
  Gives, Gives-bind, or_zero, IsRun, get_or-amounts, length-amounts_of, merge_steps-IsRun, closed,
}

module _ (notes : List SpendableNote) (amount : NoteAmount) where
  -- A plan spends different notes of the wallet, at most ten, whose amounts sum to the amount and
  -- the change; its steps are a balanced run over them.
  pub record IsPlan (steps : List PlannedStep) : Type 0 where
    pub change : Option NoteAmount
    pub first : ℕ
    pub rest : List ℕ
    pub choice : IsChoice (amounts_of notes) (first ∷ rest) (amount + or_zero change)
    pub few : length (first ∷ rest) ≤ transaction_limit
    pub note : SpendableNote
    pub at_first : get_elem? notes first ≡ some note
    pub run : IsRun amount change notes (from_spendable note) rest steps

  -- How `plan` may end, and why.
  abbrev pub Ends : Outcome ⊤ PlanError (List PlannedStep) → Type 0
  Ends (ok steps w) = IsPlan steps
  Ends (err PlanError.no_spendable_notes) = notes ≡ []
  Ends (err PlanError.no_combination) = sum (amounts_of notes) < amount
  Ends (err (PlanError.too_many_notes selected max_notes)) =
      (transaction_limit < selected)
      × (max_notes ≡ transaction_limit)
      × (is : List ℕ) × (excess : NoteAmount) × (length is ≡ selected)
      × IsChoice (amounts_of notes) is (amount + excess)
  Ends (err PlanError.input_amount_overflow) = u128_max < sum (amounts_of notes)
  Ends (err e) = ⊥
  Ends trap = ⊥

  abbrev IsSelected : Option (List ℕ × Option NoteAmount) → Type 0
  IsSelected none = (sum (amounts_of notes) < amount) ⊎ (amounts_of notes ≡ [])
  IsSelected (some chosen) =
      IsChoice (amounts_of notes) chosen.0 (amount + or_zero chosen.1) × (0 < length chosen.0)

  exactly :
      (is : List ℕ)
      → IsChoice (amounts_of notes) is amount
      → IsChoice (amounts_of notes) is (amount + 0)
  exactly is h = let e : amount + 0 ≡ amount = omega arith in rw e h

  selection-IsSelected :
      (r : CombinationResult) → IsSound (amounts_of notes) amount r → IsSelected (selection r)
  selection-IsSelected (CombinationResult.two_exact i j) h = (exactly (i ∷ j ∷ []) h, omega arith)
  selection-IsSelected (CombinationResult.one_exact i) h = (exactly (i ∷ []) h, omega arith)
  selection-IsSelected (CombinationResult.two_overshoot i j x) h = (h.1, omega arith)
  selection-IsSelected (CombinationResult.one_overshoot i x) h = (h.1, omega arith)
  selection-IsSelected (CombinationResult.exact_k p) h = (exactly p h.0, omega (arith, h.1))
  selection-IsSelected (CombinationResult.overshoot p x) h = h
  selection-IsSelected CombinationResult.impossible h = h

  abbrev total : NoteAmount
  total = sum (amounts_of notes)

  Gives-Ends : (o : Outcome ⊤ PlanError (List PlannedStep)) → Gives total IsPlan o → Ends o
  Gives-Ends (ok steps w) h = h
  Gives-Ends (err e) h = rw h.0 h.1
  Gives-Ends trap h = h

  -- The steps for a choice.
  build_steps-IsPlan :
      (is : List ℕ) (change : Option NoteAmount)
      → IsChoice (amounts_of notes) is (amount + or_zero change)
      → 0 < length is
      → length is ≤ transaction_limit
      → Gives total IsPlan (build_steps notes amount is change tt)
  unfolding build_steps
  build_steps-IsPlan [] change c some_notes few = absurd (omega arith)
  build_steps-IsPlan (i ∷ []) change c some_notes few =
      let (n, at) =
        get_elem?-below notes i (omega (arith, c.in_range.0, length-amounts_of notes)) in
      rw at (record {
        change = change;
        first = i;
        rest = [];
        choice = c;
        few = few;
        note = n;
        at_first = at;
        run = record {
          merged = [];
          taken = tt;
          chain = (refl, refl, refl);
          balanced = (omega (arith, c.sums, get_or-amounts notes i n at), tt);
        };
      })
  build_steps-IsPlan (i ∷ j ∷ js) change c some_notes few =
      let within : amount + or_zero change ≤ total =
        omega (arith, c.sums, sum_at-le-sum (i ∷ j ∷ js) (amounts_of notes) c.distinct) in
      let in_range : All (λ k. k < length notes) (i ∷ j ∷ js) =
        in_wallet notes amount (i ∷ j ∷ js) c.in_range in
      let (n, at) = get_elem?-below notes i in_range.0 in
      rw at (
        Gives-bind total
          (λ steps.
            IsRun amount change notes (from_spendable n) (j ∷ js)
              (closed notes amount change steps))
          _ (merge_steps notes (j ∷ js) n.amount (from_spendable n)) _
          (merge_steps-IsRun notes amount change total js j (from_spendable n) n.amount in_range.1
            refl (omega (arith, c.sums, get_or-amounts notes i n at)) within)
          λ steps run. record {
            change = change;
            first = i;
            rest = j ∷ js;
            choice = c;
            few = few;
            note = n;
            at_first = at;
            run = run;
          })

  assemble-IsPlan :
      (steps : List PlannedStep)
      → IsPlan steps
      → Gives total IsPlan (ok_or (assemble steps) PlanError.invalid_plan tt)
  assemble-IsPlan steps h =
      let e =
        assemble-Chain notes amount h.change (from_spendable h.note) h.run.merged steps
          h.run.chain in
      rw e h

  -- `plan`, after the search.
  abbrev finish : Option (List ℕ × Option NoteAmount) → Fallible (List PlannedStep)
  finish selected = do
    chosen ← ok_or selected PlanError.no_combination
    fail_if (ltb transaction_limit (length chosen.0))
        (PlanError.too_many_notes (length chosen.0) transaction_limit)
    check_range notes chosen.0
    steps ← build_steps notes amount chosen.0 chosen.1
    ok_or (assemble steps) PlanError.invalid_plan

  finish-Ends :
      0 < length notes
      → (selected : Option (List ℕ × Option NoteAmount)) → IsSelected selected
      → Ends (finish selected tt)
  finish-Ends some_notes none (inl less) = less
  finish-Ends some_notes none (inr empty) =
      absurd (omega (arith, length-amounts_of notes, ap length empty))
  finish-Ends some_notes (some (is, change)) (choice, chosen_some) =
      elim (Bool-cases (ltb transaction_limit (length is))) [
        | inl many ↦ rw many (ground arith, refl, is, or_zero change, refl, choice)
        | inr few ↦
            let checked : Gives total (λ _. Unit) (check_range notes is tt) =
              rw (check_range-ok notes amount is (in_wallet notes amount is choice.in_range)) tt in
            rw few (
              Gives-Ends _ (
                Gives-bind total (λ _. Unit) IsPlan (check_range notes is) _ checked
                  λ _ _.
                    Gives-bind total IsPlan IsPlan (build_steps notes amount is change) _
                      (build_steps-IsPlan is change choice chosen_some (ground arith))
                      assemble-IsPlan))
      ]

module _ (sort : List Entry → List Entry) (is_sort : IsSort sort) where
  -- `plan` ends, for a wallet, with a plan or with one of four errors, never with a panic.
  -- `NoSpendableNotes` comes only of an empty wallet, `NoCombination` only where all its notes together
  -- are less than the amount, `TooManyNotes` with the number, above ten, of different notes of the
  -- wallet that reach the amount, and `InputAmountOverflow` only where all its notes together do not
  -- fit in a u128. A plan spends different notes of the wallet, at most ten, which sum to the amount
  -- and the change; every step pays what it spends, each but the last merges what the steps before it
  -- have merged with the next note, and the last pays the amount and the change.
  pub plan-Ends :
      (amount : NoteAmount) (notes : List SpendableNote)
      → Ends notes amount (plan sort amount notes tt)
  unfolding plan
  plan-Ends amount [] = refl
  plan-Ends amount (n ∷ ns) =
      let notes = n ∷ ns in
      go (find_combination sort (amounts_of notes) amount tt)
        (find_combination-Overflows sort is_sort.rearranged (amounts_of notes) amount)
        λ r h.
          selection-IsSelected notes amount r
            (find_combination-IsSound sort is_sort amount (amounts_of notes) r h)
    where
      go :
          (o : Outcome ⊤ PlanError CombinationResult)
          → Overflows (sum (amounts_of (n ∷ ns))) o
          → ((r : CombinationResult) → o ≡ ok r tt → IsSelected (n ∷ ns) amount (selection r))
          → Ends (n ∷ ns) amount (elim o as (λ _. Outcome ⊤ PlanError (List PlannedStep)) [
            | ok r w ↦ finish (n ∷ ns) amount (selection r) w
            | err e ↦ err e
            | trap ↦ trap
          ])
      go (ok r tt) h k = finish-Ends (n ∷ ns) amount (omega arith) (selection r) (k r refl)
      go (err e) h k = rw h.0 h.1
      go trap h k = h
