-- ===== src/Planner/Combination/Defs.antt =====
-- The scans for one and for two notes, over the notes in ascending order of their amounts.
use paymage.Base.{
  ℕ, zero, suc, ◌+◌, ◌-◌, ◌==◌, ltb, Bool, true, false, Option, none, some, List, [], ◌∷◌, length,
  get_elem?, if◌then◌else◌,
}
use paymage.Host.Outcome.{ok_or, or_trap, pure, ◌>>=◌}
use paymage.Planner.Amounts.{NoteAmount, checked_add, checked_sub}
use paymage.Planner.Errors.{PlanError, Fallible}

abbrev pub transaction_limit : ℕ
transaction_limit = 10

-- A note's index in the wallet, and its amount.
abbrev pub Entry : Type 0
Entry = ℕ × NoteAmount

pub data CombinationResult : Type 0 where
  two_exact : (i j : ℕ) → CombinationResult
  one_exact : (i : ℕ) → CombinationResult
  two_overshoot : (i j : ℕ) (excess : NoteAmount) → CombinationResult
  one_overshoot : (i : ℕ) (excess : NoteAmount) → CombinationResult
  exact_k : (indices : List ℕ) → CombinationResult
  overshoot : (indices : List ℕ) (excess : NoteAmount) → CombinationResult
  impossible : CombinationResult

pub data TwoScan : Type 0 where
  exact : (i j : ℕ) → TwoScan
  overshoot : (i j : ℕ) (excess : NoteAmount) → TwoScan
  miss : TwoScan

pub data OneScan : Type 0 where
  exact : (i : ℕ) → OneScan
  overshoot : (i : ℕ) (excess : NoteAmount) → OneScan
  miss : OneScan

-- The best overshoot so far: two indices and the excess.
pub record Best : Type 0 where
  pub first : ℕ
  pub second : ℕ
  pub excess : NoteAmount

-- `best_overshoot.is_none_or(|(_, _, excess)| diff < excess)`
abbrev pub improves : NoteAmount → Option Best → Bool
improves diff none = true
improves diff (some b) = ltb diff b.excess

abbrev pub two_result : Option Best → TwoScan
two_result none = TwoScan.miss
two_result (some b) = TwoScan.overshoot b.first b.second b.excess

-- The loop, where `right` is `left + gap`: it runs while `gap` is not zero, and each round either
-- raises `left` or lowers `right`.
unfoldable pub two_loop : List Entry → NoteAmount → ℕ → ℕ → Option Best → Fallible TwoScan
two_loop sorted goal zero left best = pure (two_result best)
two_loop sorted goal (suc gap) left best = do
  a ← or_trap (get_elem? sorted left)
  b ← or_trap (get_elem? sorted (left + suc gap))
  sum ← ok_or (checked_add a.1 b.1) PlanError.input_amount_overflow
  elim (checked_sub sum goal) [
    | none ↦ two_loop sorted goal gap (left + 1) best
    | some diff ↦ elim (diff == 0) [
      | true ↦ pure (TwoScan.exact a.0 b.0)
      | false ↦ two_loop sorted goal gap left (
          if improves diff best
          then some (record { first = a.0; second = b.0; excess = diff })
          else best)
    ]
  ]

unfoldable pub two_scan : List Entry → NoteAmount → Fallible TwoScan
two_scan sorted goal =
    if ltb (length sorted) 2
    then pure TwoScan.miss
    else two_loop sorted goal (length sorted - 1) 0 none

unfoldable pub one_scan : List Entry → NoteAmount → OneScan
one_scan [] goal = OneScan.miss
one_scan (e ∷ es) goal =
    let rest = one_scan es goal in
    elim (checked_sub e.1 goal) [
      | none ↦ rest
      | some diff ↦ if diff == 0 then OneScan.exact e.0 else OneScan.overshoot e.0 diff
    ]
