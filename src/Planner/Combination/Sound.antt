-- ===== src/Planner/Combination/Sound.antt =====
-- What `find_combination` returns: a choice of the wallet's notes that reaches the goal.
use paymage.Base.{
  ℕ, zero, suc, ◌+◌, ◌-◌, ◌≡◌, ◌<◌, ◌≤◌, leb, ltb, true, false, Option, none, some, List, [], ◌∷◌,
  length, reverse, All, Distinct, sum, arith, refl, Bool-cases, inl, inr, ◌⊎◌, if◌then◌else◌,
  length-append, Perm, Perm-reverse, All-Perm, Distinct-Perm, sum-Perm, length-Perm,
}
use paymage.Host.Outcome.{ok, >>=-elim, ok_or}
use paymage.Planner.Facts.{
  Ended, finished, failed, trapped, ended, checked_add-some, checked_sub-some_of_le,
}
use paymage.Planner.Amounts.{NoteAmount, checked_add}
use paymage.Planner.Errors.{PlanError, Fallible}
use paymage.Planner.Combination.Defs.{Entry, transaction_limit}
use paymage.Planner.Combination.Search.{
  KScan, DfsContext, dfs, greedy, push, fresh_context, k_loop, k_scan, below,
}
use paymage.Planner.Combination.Choice.{
  IsChoice, IsEntry, Searching, Searching-start, Searching-push, indices, amounts, indices-Perm,
  amounts-Perm, All-below, Distinct-below,
}
use paymage.Planner.Combination.Dfs.{IsGood, dfs-Finds}

module _ (values : List NoteAmount) (goal : NoteAmount) where
  -- A scan's answer, where it misses when even `all` is below the goal.
  abbrev pub IsSoundK : NoteAmount → KScan → Type 0
  IsSoundK all (KScan.exact p) =
      IsChoice values p goal × (3 ≤ length p) × (length p ≤ transaction_limit)
  IsSoundK all (KScan.overshoot p excess) = IsChoice values p (goal + excess) × (0 < length p)
  IsSoundK all KScan.miss = all < goal

  greedy_lem :
      (es : List Entry) (total : NoteAmount) (picks : List ℕ) (r : KScan)
      → Searching values picks total es
      → (total < goal) ⊎ (0 < length es)
      → greedy goal es total picks tt ≡ ok r tt
      → IsSoundK (total + sum (amounts es)) r
  unfolding greedy
  greedy_lem [] total picks r s (inl less) h =
      let e : r ≡ KScan.miss = ground arith in rw e (omega arith)
  greedy_lem [] total picks r s (inr more) h = absurd (omega arith)
  greedy_lem (e ∷ es) total picks r s start h =
      >>=-elim (ok_or (checked_add total e.1) PlanError.input_amount_overflow) _ h λ t u e₁ h₁.
        let t_is : t ≡ total + e.1 = (checked_add-some total e.1 t (ground arith)).0 in
        let next : Searching values (push e.0 picks) t es =
          rw t_is (Searching-push values picks total e es s) in
        elim (Bool-cases (leb goal t)) [
          | inl reached ↦
              let e₂ : r ≡ KScan.overshoot (push e.0 picks) (t - goal) =
                ground (arith, checked_sub-some_of_le t goal (ground arith)) in
              let back : goal + (t - goal) ≡ t = ground arith in
              rw (e₂, back) (next.choice, omega (arith, length-append picks (e.0 ∷ [])))
          | inr under ↦
              let same : t + sum (amounts es) ≡ total + (e.1 + sum (amounts es)) = omega arith in
              rw same at
                (greedy_lem es t (push e.0 picks) r next (inl (ground arith)) (ground arith))
        ]

  module _ (cs : List Entry) (entries : All (IsEntry values) cs) (distinct : Distinct (indices cs))
      (all : NoteAmount) (last : Fallible KScan)
      (last_sound : (r : KScan) → last tt ≡ ok r tt → IsSoundK all r) where
    k_loop_lem :
        (rounds k : ℕ) (r : KScan)
        → 3 ≤ k
        → k + rounds ≤ 11
        → k_loop cs goal rounds k last tt ≡ ok r tt
        → IsSoundK all r
    unfolding k_loop
    k_loop_lem zero k r low high h = last_sound r h
    k_loop_lem (suc rounds) k r low high h =
        go (ended (dfs k goal cs 0 fresh_context))
          (k_loop_lem rounds (suc k) r (omega arith) (omega arith))
      where
        best :
            (o : Option (NoteAmount × List ℕ)) (ctx : DfsContext)
            → ctx.best_overshoot ≡ o
            → dfs k goal cs 0 fresh_context ≡ ok false ctx
            → IsGood values k goal o
            → (k_loop cs goal rounds (suc k) last tt ≡ ok r tt → IsSoundK all r)
            → IsSoundK all r
        best none ctx eo e good next = next (ground arith)
        best (some (d, p)) ctx eo e good next =
            let er : r ≡ KScan.overshoot p d = ground arith in
            rw er (good.1, omega (arith, good.2, low))

        go :
            Ended (dfs k goal cs 0 fresh_context)
            → (k_loop cs goal rounds (suc k) last tt ≡ ok r tt → IsSoundK all r)
            → IsSoundK all r
        go (finished true ctx e) next =
            let er : r ≡ KScan.exact ctx.path = ground arith in
            let (good, found) =
              dfs-Finds values k goal cs 0 fresh_context ctx true
                (Searching-start values cs entries distinct) tt e in
            rw er (found.0, omega arith, omega arith)
        go (finished false ctx e) next =
            let (good, found) =
              dfs-Finds values k goal cs 0 fresh_context ctx false
                (Searching-start values cs entries distinct) tt e in
            best ctx.best_overshoot ctx refl e good next
        go (failed x e) next = absurd (ground arith)
        go (trapped e) next = absurd (ground arith)

  pub k_scan_lem :
      (s : List Entry) (r : KScan)
      → All (IsEntry values) s
      → Distinct (indices s)
      → 0 < length s
      → k_scan s goal tt ≡ ok r tt
      → IsSoundK (sum (amounts s)) r
  unfolding k_scan
  k_scan_lem s r entries distinct some_notes h =
      let b = below goal s in
      let desc = reverse b in
      let p : Perm b desc = Perm-reverse b in
      let q : Perm s (reverse s) = Perm-reverse s in
      let entries' = All-Perm (IsEntry values) p (All-below (IsEntry values) goal s entries) in
      let distinct' = Distinct-Perm (indices-Perm p) (Distinct-below goal s distinct) in
      let same : 0 + sum (amounts (reverse s)) ≡ sum (amounts s) =
        omega (arith, sum-Perm (amounts-Perm q)) in
      k_loop_lem desc entries' distinct' (sum (amounts s)) (greedy goal (reverse s) 0 [])
        (λ r' h'. rw same at (
          greedy_lem (reverse s) 0 [] r'
            (Searching-start values (reverse s) (All-Perm (IsEntry values) q entries)
              (Distinct-Perm (indices-Perm q) distinct))
            (inr (omega (arith, length-Perm q))) h'))
        ((if ltb (length desc) transaction_limit then length desc else transaction_limit) - 2) 3 r
        (omega arith) (ground arith) h
