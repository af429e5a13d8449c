-- ===== src/Planner/Combination/Search.antt =====
-- The search for three and more notes, and `find_combination`, which orders the searches.
use paymage.Base.{
  ℕ, zero, suc, ◌-◌, ◌==◌, ◌||◌, ltb, leb, Bool, true, false, Option, none, some, List, [], ◌∷◌,
  ◌++◌, length, reverse, if◌then◌else◌,
}
use paymage.Host.Outcome.{Action, ⊤, ok, err, trap, ok_or, modify, pure, ◌>>=◌, ◌>>◌}
use paymage.Planner.Amounts.{NoteAmount, checked_add, checked_sub}
use paymage.Planner.Errors.{PlanError, Fallible}
use paymage.Planner.Combination.Defs.{
  Entry, CombinationResult, TwoScan, OneScan, two_scan, one_scan, transaction_limit,
}

pub data KScan : Type 0 where
  exact : (indices : List ℕ) → KScan
  overshoot : (indices : List ℕ) (excess : NoteAmount) → KScan
  miss : KScan

-- `DfsContext`: what the search changes.
pub record DfsContext : Type 0 where
  pub iteration_limit : ℕ
  pub path : List ℕ
  pub best_overshoot : Option (NoteAmount × List ℕ)

abbrev pub improves : NoteAmount → Option (NoteAmount × List ℕ) → Bool
improves diff none = true
improves diff (some (min_ov, p)) = ltb diff min_ov

abbrev pub push : ℕ → List ℕ → List ℕ
push i path = path ++ i ∷ []

unfoldable pub pop : List ℕ → List ℕ
pop [] = []
pop (x ∷ []) = []
pop (x ∷ y ∷ ys) = x ∷ pop (y ∷ ys)

abbrev pub D : Type 0 → Type 0
D A = Action DfsContext PlanError A

-- A path of the target length: whether its sum is the goal, and the best overshoot otherwise.
unfoldable pub judge : NoteAmount → NoteAmount → D Bool
judge goal sum ctx = elim (checked_sub sum goal) [
  | none ↦ ok false ctx
  | some diff ↦ elim (diff == 0) [
    | true ↦ ok true ctx
    | false ↦ ok false (
        if improves diff ctx.best_overshoot
        then record ctx { best_overshoot = some (diff, ctx.path) }
        else ctx)
  ]
]

-- One iteration is spent, and the candidate's index is pushed.
unfoldable pub visit : ℕ → D ⊤
visit i = modify λ s. record s { iteration_limit = s.iteration_limit - 1; path = push i s.path }

unfoldable pub leave : D ⊤
unfolding pop
leave = modify λ s. record s { path = pop s.path }

-- A candidate is tried: the search goes on with it, and if that fails without it.
unfoldable pub extend : Entry → NoteAmount → (NoteAmount → D Bool) → D Bool
extend c sum next = do
  visit c.0
  with_note ← ok_or (checked_add sum c.1) PlanError.input_amount_overflow
  done ← next with_note
  elim done [ true ↦ pure true | false ↦ do leave; next sum ]

-- The search over the candidates from the current one on.
unfoldable pub dfs : ℕ → NoteAmount → List Entry → NoteAmount → D Bool
dfs target_k goal [] sum ctx = elim (length ctx.path == target_k) [
  | true ↦ judge goal sum ctx
  | false ↦ ok false ctx
]
dfs target_k goal (c ∷ cs) sum ctx = elim (length ctx.path == target_k) [
  | true ↦ judge goal sum ctx
  | false ↦ elim (leb goal sum || ctx.iteration_limit == 0) [
    | true ↦ ok false ctx
    | false ↦ extend c sum (dfs target_k goal cs) ctx
  ]
]

-- The notes from the largest on, until their sum reaches the goal.
unfoldable pub greedy : NoteAmount → List Entry → NoteAmount → List ℕ → Fallible KScan
greedy goal [] total picks = pure KScan.miss
greedy goal (e ∷ es) total picks = do
  next_total ← ok_or (checked_add total e.1) PlanError.input_amount_overflow
  elim (leb goal next_total) [
    | true ↦ do
      excess ← ok_or (checked_sub next_total goal) PlanError.internal_error
      pure (KScan.overshoot (push e.0 picks) excess)
    | false ↦ greedy goal es next_total (push e.0 picks)
  ]

abbrev pub fresh_context : DfsContext
fresh_context = record { iteration_limit = 5000; path = []; best_overshoot = none }

-- for k in k..(k + rounds); a scan that finds nothing leaves it to the greedy one.
unfoldable pub k_loop : List Entry → NoteAmount → ℕ → ℕ → Fallible KScan → Fallible KScan
k_loop candidates goal zero k last u = last u
k_loop candidates goal (suc rounds) k last u = elim (dfs k goal candidates 0 fresh_context) [
  | ok true ctx ↦ ok (KScan.exact ctx.path) u
  | ok false ctx ↦ elim ctx.best_overshoot [
    | some best ↦ ok (KScan.overshoot best.1 best.0) u
    | none ↦ k_loop candidates goal rounds (suc k) last u
  ]
  | err e ↦ err e
  | trap ↦ trap
]

-- `filter(|&(_, x)| x < goal)`
unfoldable pub below : NoteAmount → List Entry → List Entry
below goal [] = []
below goal (e ∷ es) = let rest = below goal es in if ltb e.1 goal then e ∷ rest else rest

-- for k in 3..=min(len, TRANSACTION_LIMIT), if there are three candidates.
unfoldable pub k_scan : List Entry → NoteAmount → Fallible KScan
k_scan sorted goal =
    let candidates_desc = reverse (below goal sorted) in
    let n = length candidates_desc in
    let max_k = if ltb n transaction_limit then n else transaction_limit in
    k_loop candidates_desc goal (max_k - 2) 3 (greedy goal (reverse sorted) 0 [])

-- `values.iter().copied().enumerate()`
unfoldable pub enumerate : ℕ → List NoteAmount → List Entry
enumerate i [] = []
enumerate i (x ∷ xs) = (i, x) ∷ enumerate (suc i) xs

-- The searches in their order of preference, over the sorted notes.
unfoldable pub choose : List Entry → NoteAmount → TwoScan → OneScan → Fallible CombinationResult
choose sorted goal (TwoScan.exact i j) one = pure (CombinationResult.two_exact i j)
choose sorted goal two (OneScan.exact i) = pure (CombinationResult.one_exact i)
choose sorted goal (TwoScan.overshoot i j excess) one =
    pure (CombinationResult.two_overshoot i j excess)
choose sorted goal two (OneScan.overshoot i excess) =
    pure (CombinationResult.one_overshoot i excess)
choose sorted goal two one = do
  found ← k_scan sorted goal
  elim found [
    | KScan.exact indices ↦ pure (CombinationResult.exact_k indices)
    | KScan.overshoot indices excess ↦ pure (CombinationResult.overshoot indices excess)
    | KScan.miss ↦ pure CombinationResult.impossible
  ]

-- `sort` is `sort_unstable_by_key` on the amounts.
module _ (sort : List Entry → List Entry) where
  unfoldable pub find_combination : List NoteAmount → NoteAmount → Fallible CombinationResult
  find_combination [] goal = pure CombinationResult.impossible
  find_combination (v ∷ vs) goal =
      let sorted = sort (enumerate 0 (v ∷ vs)) in
      do two ← two_scan sorted goal; choose sorted goal two (one_scan sorted goal)
