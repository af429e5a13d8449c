-- ===== src/Planner/Plan/Assemble.antt =====
-- The range of the chosen indices, and the last step of a chain, as `plan` tests them.
use paymage.Base.{
  ℕ, ◌+◌, ◌≡◌, ◌<◌, leb, true, false, Option, some, List, [], ◌∷◌, length, All, arith, refl, ap,
}
use paymage.Host.Outcome.{ok}
use paymage.Planner.Amounts.{NoteAmount}
use paymage.Planner.Plan.Defs.{
  StepAction, SpendableNote, StepNote, PlannedStep, from_amount, amounts_of, last, is_final,
  assemble, check_range,
}
use paymage.Planner.Plan.Chain.{Chain, length-amounts_of}

module _ (notes : List SpendableNote) (amount : NoteAmount) where
  pub in_wallet :
      (is : List ℕ) → All (λ i. i < length (amounts_of notes)) is → All (λ i. i < length notes) is
  in_wallet [] h = tt
  in_wallet (i ∷ is) h = (omega (arith, h.0, length-amounts_of notes), in_wallet is h.1)

  pub check_range-ok :
      (is : List ℕ) → All (λ i. i < length notes) is → check_range notes is tt ≡ ok tt tt
  unfolding check_range
  check_range-ok [] h = refl
  check_range-ok (i ∷ is) h =
      let low : leb (length notes) i ≡ false = ground (arith, h.0) in rw low (check_range-ok is h.1)

  -- A run ends with a final step, and is passed on as it is.
  pub assemble-Chain :
      (change : Option NoteAmount) (prev : StepNote) (ns : List SpendableNote)
      (steps : List PlannedStep)
      → Chain amount change prev ns steps
      → assemble steps ≡ some steps
  assemble-Chain change prev ns steps h =
      let (s, at, final) = closing prev ns steps h in rw (assemble, at, final) refl
    where
      alone :
          (s : PlannedStep) (rest : List PlannedStep)
          → s.action ≡ StepAction.final (amount, change)
          → rest ≡ []
          → (x : PlannedStep) × (last (s ∷ rest) ≡ some x) × (is_final x.action ≡ true)
      alone s rest a e = (s, rw e refl, ap is_final a)

      further :
          (s : PlannedStep) (rest : List PlannedStep)
          → (x : PlannedStep) × (last rest ≡ some x) × (is_final x.action ≡ true)
          → (x : PlannedStep) × (last (s ∷ rest) ≡ some x) × (is_final x.action ≡ true)
      further s [] (x, e, f) = cc
      further s (y ∷ ys) h = h

      closing :
          (prev : StepNote) (ns : List SpendableNote) (steps : List PlannedStep)
          → Chain amount change prev ns steps
          → (s : PlannedStep) × (last steps ≡ some s) × (is_final s.action ≡ true)
      closing prev ns [] h = elim (none_left ns h) [ ]
        where
          none_left : (ns : List SpendableNote) → Chain amount change prev ns [] → ⊥
          none_left ns h = h
      closing prev [] (s ∷ rest) h = alone s rest h.1 h.2
      closing prev (n ∷ []) (s ∷ rest) h = alone s rest h.1 h.2
      closing prev (n ∷ x ∷ xs) (s ∷ rest) h =
          further s rest (closing (from_amount (prev.amount + n.amount)) (x ∷ xs) rest h.2)
