-- ===== src/Planner/Combination/Total.antt =====
-- How the search for a combination can fail: where a sum of amounts does not fit in a u128, and in
-- no other way.
use paymage.Base.{
  ℕ, zero, suc, ◌+◌, ◌-◌, ◌==◌, ◌||◌, ◌≡◌, ◌<◌, leb, ltb, Bool, true, false, Option, none, some,
  List, [], ◌∷◌, length, reverse, get_elem?, sum, arith, sym, ap, ◌∙◌, ◌≤◌, Perm, Perm-reverse,
  sum-Perm, Bool-cases, inl, inr,
}
use paymage.Host.Outcome.{Outcome, ok, err, trap, ⊤, pure, ◌>>=◌, ◌>>◌}
use paymage.Planner.Facts.{get_elem?-below, checked_sub-some_of_le, short, same, over, difference}
use paymage.Planner.Amounts.{NoteAmount, checked_sub}
use paymage.Planner.Errors.{PlanError, Fallible}
use paymage.Planner.Combination.Defs.{
  Entry, CombinationResult, TwoScan, OneScan, Best, two_loop, two_scan, one_scan,
}
use paymage.Planner.Combination.Choice.{amounts, amounts-Perm, amounts-enumerate}
use paymage.Planner.Combination.Overflow.{Overflows, Overflows-bind, add-Overflows, pair_within}
use paymage.Planner.Combination.Search.{
  KScan, DfsContext, D, judge, visit, leave, extend, dfs, greedy, push, fresh_context, k_loop,
  k_scan, below, enumerate, choose, find_combination,
}

sum-below : (goal : NoteAmount) (s : List Entry) → sum (amounts (below goal s)) ≤ sum (amounts s)
unfolding below
sum-below goal [] = omega arith
sum-below goal (e ∷ es) = elim (Bool-cases (ltb e.1 goal)) [
  | inl less ↦ rw less (omega (arith, sum-below goal es))
  | inr more ↦ rw more (omega (arith, sum-below goal es))
]

module _ (s : List Entry) (goal total : NoteAmount) where
  two_loop-Overflows :
      (gap left : ℕ) (best : Option Best)
      → sum (amounts s) ≤ total
      → left + gap < length s
      → Overflows total (two_loop s goal gap left best tt)
  unfolding two_loop
  two_loop-Overflows zero left best within low = tt
  two_loop-Overflows (suc gap) left best within low =
      go (get_elem?-below s left (omega arith)) (get_elem?-below s (left + suc gap) low)
        (two_loop-Overflows gap (left + 1) best within (omega arith))
        (λ next. two_loop-Overflows gap left next within (omega arith))
    where
      go :
          (x : Entry) × (get_elem? s left ≡ some x)
          → (y : Entry) × (get_elem? s (left + suc gap) ≡ some y)
          → Overflows total (two_loop s goal gap (left + 1) best tt)
          → ((next : Option Best) → Overflows total (two_loop s goal gap left next tt))
          → Overflows total (two_loop s goal (suc gap) left best tt)
      go (x, at_left) (y, at_right) raise lower =
          rw (at_left, at_right)
            (add-Overflows {B = TwoScan} total x.1 y.1 _ tt
              (omega
                (arith, pair_within s left (left + suc gap) x y (omega arith) at_left at_right))
              (elim (difference (x.1 + y.1) goal) [
                | short e less ↦ rw e raise
                | same e equal ↦ rw e tt
                | over d e equal positive ↦
                    let f : (d == 0) ≡ false = ground arith in rw (e, f) (lower _)
              ]))

  two_scan-Overflows : sum (amounts s) ≤ total → Overflows total (two_scan s goal tt)
  unfolding two_scan
  two_scan-Overflows within = elim (Bool-cases (ltb (length s) 2)) [
    | inl few ↦ rw few tt
    | inr enough ↦ rw enough (two_loop-Overflows (length s - 1) 0 none within (ground arith))
  ]

  judge-Overflows : (sum : NoteAmount) (ctx : DfsContext) → Overflows total (judge goal sum ctx)
  unfolding judge checked_sub
  judge-Overflows sum ctx = elim (difference sum goal) [
    | short e less ↦ let r : judge goal sum ctx ≡ ok false ctx = ground arith in rw r tt
    | same e equal ↦ let r : judge goal sum ctx ≡ ok true ctx = ground arith in rw r tt
    | over d e equal positive ↦ let f : (d == 0) ≡ false = ground arith in rw (judge, e, f) tt
  ]

  extend-Overflows :
      (c : Entry) (so_far : NoteAmount) (next : NoteAmount → D Bool) (ctx : DfsContext)
      → so_far + c.1 ≤ total
      → ((ctx' : DfsContext) → Overflows total (next (so_far + c.1) ctx'))
      → ((ctx' : DfsContext) → Overflows total (next so_far ctx'))
      → Overflows total (extend c so_far next ctx)
  unfolding extend visit leave
  extend-Overflows c so_far next ctx within with_note without =
      let after = λ (done : Bool). elim done as (λ _. D Bool) [
        | true ↦ pure true
        | false ↦ leave >> next so_far
      ] in
      Overflows-bind {B = Bool} total (visit c.0) _ ctx tt λ _ ctx₁ _.
        add-Overflows {B = Bool} total so_far c.1 (λ t. next t >>= after) ctx₁ within
          (Overflows-bind {B = Bool} total (next (so_far + c.1)) after ctx₁ (with_note ctx₁)
            λ done ctx₂ _. elim done as (λ d. Overflows total (after d ctx₂)) [
              | true ↦ tt
              | false ↦
                  Overflows-bind {B = Bool} total leave (λ _. next so_far) ctx₂ tt
                    λ _ ctx₃ _. without ctx₃
            ])

  dfs-Overflows :
      (k : ℕ) (cs : List Entry) (so_far : NoteAmount) (ctx : DfsContext)
      → so_far + sum (amounts cs) ≤ total
      → Overflows total (dfs k goal cs so_far ctx)
  unfolding dfs
  dfs-Overflows k [] so_far ctx within = elim (Bool-cases (length ctx.path == k)) [
    | inl full ↦ rw (dfs, full) (judge-Overflows so_far ctx)
    | inr room ↦ rw (dfs, room) tt
  ]
  dfs-Overflows k (c ∷ cs) so_far ctx within =
      let with_note = λ (ctx' : DfsContext). dfs-Overflows k cs (so_far + c.1) ctx' (omega arith) in
      let without = λ (ctx' : DfsContext). dfs-Overflows k cs so_far ctx' (omega arith) in
      elim (Bool-cases (length ctx.path == k)) [
        | inl full ↦ rw (dfs, full) (judge-Overflows so_far ctx)
        | inr room ↦ elim (Bool-cases (leb goal so_far || ctx.iteration_limit == 0)) [
          | inl stop ↦ rw (dfs, room, stop) tt
          | inr more ↦
              rw (dfs, room, more)
                (extend-Overflows c so_far (dfs k goal cs) ctx (omega arith) with_note without)
        ]
      ]

  greedy-Overflows :
      (es : List Entry) (so_far : NoteAmount) (picks : List ℕ)
      → so_far + sum (amounts es) ≤ total
      → Overflows total (greedy goal es so_far picks tt)
  unfolding greedy
  greedy-Overflows [] so_far picks within = tt
  greedy-Overflows (e ∷ es) so_far picks within =
      let t = so_far + e.1 in
      let rest = greedy-Overflows es t (push e.0 picks) (omega arith) in
      add-Overflows total so_far e.1 _ tt (omega arith) (elim (Bool-cases (leb goal t)) [
        | inl reached ↦
            let f : checked_sub t goal ≡ some (t - goal) =
              checked_sub-some_of_le t goal (ground arith) in
            rw (reached, f) tt
        | inr under ↦ rw under rest
      ])

  k_loop-Overflows :
      (cs : List Entry) (rounds k : ℕ) (last : Fallible KScan)
      → sum (amounts cs) ≤ total
      → Overflows total (last tt)
      → Overflows total (k_loop cs goal rounds k last tt)
  unfolding k_loop
  k_loop-Overflows cs zero k last within h = h
  k_loop-Overflows cs (suc rounds) k last within h =
      go (dfs k goal cs 0 fresh_context) (dfs-Overflows k cs 0 fresh_context (omega arith))
        (k_loop-Overflows cs rounds (suc k) last within h)
    where
      best :
          (o : Option (NoteAmount × List ℕ))
          → Overflows total (k_loop cs goal rounds (suc k) last tt)
          → Overflows total (elim o as (λ _. Outcome ⊤ PlanError KScan) [
            | some best ↦ ok (KScan.overshoot best.1 best.0) tt
            | none ↦ k_loop cs goal rounds (suc k) last tt
          ])
      best none next = next
      best (some b) next = tt

      go :
          (o : Outcome DfsContext PlanError Bool)
          → Overflows total o
          → Overflows total (k_loop cs goal rounds (suc k) last tt)
          → Overflows total (elim o as (λ _. Outcome ⊤ PlanError KScan) [
            | ok true ctx ↦ ok (KScan.exact ctx.path) tt
            | ok false ctx ↦ elim ctx.best_overshoot [
              | some best ↦ ok (KScan.overshoot best.1 best.0) tt
              | none ↦ k_loop cs goal rounds (suc k) last tt
            ]
            | err e ↦ err e
            | trap ↦ trap
          ])
      go (ok true ctx) h next = tt
      go (ok false ctx) h next = best ctx.best_overshoot next
      go (err e) h next = h
      go trap h next = h

  choose-Overflows :
      (two : TwoScan) (one : OneScan)
      → sum (amounts s) ≤ total
      → Overflows total (choose s goal two one tt)
  unfolding choose k_scan
  choose-Overflows (TwoScan.exact i j) one within = tt
  choose-Overflows (TwoScan.overshoot i j x) (OneScan.exact k) within = tt
  choose-Overflows TwoScan.miss (OneScan.exact k) within = tt
  choose-Overflows (TwoScan.overshoot i j x) (OneScan.overshoot k y) within = tt
  choose-Overflows (TwoScan.overshoot i j x) OneScan.miss within = tt
  choose-Overflows TwoScan.miss (OneScan.overshoot k y) within = tt
  choose-Overflows TwoScan.miss OneScan.miss within =
      let desc = reverse (below goal s) in
      let fewer : sum (amounts desc) ≤ total =
        omega (arith, sum-below goal s, sum-Perm (amounts-Perm (Perm-reverse (below goal s)))) in
      let same : 0 + sum (amounts (reverse s)) ≤ total =
        omega (arith, sum-Perm (amounts-Perm (Perm-reverse s))) in
      Overflows-bind total (k_scan s goal) _ tt
        (k_loop-Overflows desc _ 3 (greedy goal (reverse s) 0 []) fewer
          (greedy-Overflows (reverse s) 0 [] same))
        λ found u _.
          elim found
            as (λ f. Overflows total {A = CombinationResult} (
              (elim f as (λ _. Fallible CombinationResult) [
                | KScan.exact indices ↦ pure (CombinationResult.exact_k indices)
                | KScan.overshoot indices excess ↦ pure (CombinationResult.overshoot indices excess)
                | KScan.miss ↦ pure CombinationResult.impossible
              ])
                u)) [ KScan.exact p ↦ tt | KScan.overshoot p x ↦ tt | KScan.miss ↦ tt ]

module _ (sort : List Entry → List Entry) (rearranged : (es : List Entry) → Perm es (sort es)) where
  pub find_combination-Overflows :
      (values : List NoteAmount) (goal : NoteAmount)
      → Overflows (sum values) (find_combination sort values goal tt)
  unfolding find_combination
  find_combination-Overflows [] goal = tt
  find_combination-Overflows (v ∷ vs) goal =
      let values = v ∷ vs in
      let es = enumerate 0 values in
      let s = sort es in
      let whole =
        sym (sum-Perm (amounts-Perm (rearranged es))) ∙ ap sum (amounts-enumerate 0 values) in
      let within : sum (amounts s) ≤ sum values = omega (arith, whole) in
      Overflows-bind (sum values) (two_scan s goal) _ tt
        (two_scan-Overflows s goal (sum values) within)
        λ two u _. choose-Overflows s goal (sum values) two (one_scan s goal) within
