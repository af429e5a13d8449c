-- ===== src/Planner/Combination/Dfs.antt =====
-- The depth-first search returns choices of the wallet's notes.
use paymage.Base.{
  ℕ, ◌+◌, ◌==◌, ◌||◌, ◌≡◌, ◌<◌, leb, Bool, true, false, Option, none, some, List, [], ◌∷◌, length,
  arith, refl, Bool-cases, inl, inr, ap, ◌∙◌,
}
use paymage.Host.Outcome.{ok, >>=-elim, ok_or, pure, ◌>>◌}
use paymage.Planner.Facts.{short, same, over, difference, checked_add-some}
use paymage.Planner.Amounts.{NoteAmount, checked_add, checked_sub}
use paymage.Planner.Errors.{PlanError}
use paymage.Planner.Combination.Defs.{Entry}
use paymage.Planner.Combination.Search.{
  DfsContext, D, judge, improves, visit, leave, extend, dfs, push, pop,
}
use paymage.Planner.Combination.Choice.{
  IsChoice, Searching, Searching-push, Searching-without, pop-push,
}

visit_lem :
    (i : ℕ) (ctx ctx' : DfsContext)
    → visit i ctx ≡ ok tt ctx'
    → (ctx'.path ≡ push i ctx.path) × (ctx'.best_overshoot ≡ ctx.best_overshoot)
unfolding visit
visit_lem i ctx ctx' h = ground arith

module _ (values : List NoteAmount) (target_k : ℕ) (goal : NoteAmount) where
  abbrev pub IsGood : Option (NoteAmount × List ℕ) → Type 0
  IsGood none = Unit
  IsGood (some (d, p)) = (0 < d) × IsChoice values p (goal + d) × (length p ≡ target_k)

  -- The search has found the goal, or has left the path as it was.
  abbrev pub Found : Bool → List ℕ → List ℕ → Type 0
  Found true before path = IsChoice values path goal × (length path ≡ target_k)
  Found false before path = path ≡ before

  abbrev Finds : List Entry → (NoteAmount → D Bool) → Type 0
  Finds cs next =
      (sum : NoteAmount) (ctx ctx' : DfsContext) (b : Bool)
      → Searching values ctx.path sum cs
      → IsGood ctx.best_overshoot
      → next sum ctx ≡ ok b ctx'
      → IsGood ctx'.best_overshoot × Found b ctx.path ctx'.path

  judge_lem :
      (sum : NoteAmount) (ctx ctx' : DfsContext) (b : Bool)
      → IsChoice values ctx.path sum
      → length ctx.path ≡ target_k
      → IsGood ctx.best_overshoot
      → judge goal sum ctx ≡ ok b ctx'
      → IsGood ctx'.best_overshoot × Found b ctx.path ctx'.path
  unfolding judge checked_sub
  judge_lem sum ctx ctx' b choice k good h = elim (difference sum goal) [
    | short e less ↦
        let (eb, ec) : (b ≡ false) × (ctx' ≡ ctx) = ground arith in rw (eb, ec) (good, refl)
    | same e equal ↦
        let (eb, ec) : (b ≡ true) × (ctx' ≡ ctx) = ground arith in
        rw (eb, ec) (good, (rw equal at choice, k))
    | over d e equal positive ↦
        let eb : b ≡ false = ground arith in
        elim (Bool-cases (improves d ctx.best_overshoot)) [
          | inl better ↦
              let ec : ctx' ≡ record ctx { best_overshoot = some (d, ctx.path) } = ground arith in
              rw (eb, ec) ((positive, rw equal at choice, k), refl)
          | inr worse ↦ let ec : ctx' ≡ ctx = ground arith in rw (eb, ec) (good, refl)
        ]
  ]

  -- The tail of `extend`: the candidate has been visited and searched with.
  extend-rest :
      (c : Entry) (cs : List Entry) (next : NoteAmount → D Bool)
      → Finds cs next
      → (sum : NoteAmount) (ctx ctx₁ ctx' : DfsContext) (done b : Bool)
      → Searching values ctx.path sum (c ∷ cs)
      → IsGood ctx₁.best_overshoot
      → Found done (push c.0 ctx.path) ctx₁.path
      → (elim done as (λ _. D Bool) [ true ↦ pure true | false ↦ leave >> next sum ]) ctx₁
        ≡ ok b ctx'
      → IsGood ctx'.best_overshoot × Found b ctx.path ctx'.path
  unfolding leave
  extend-rest c cs next finds sum ctx ctx₁ ctx' true b s good found h =
      let (eb, ec) : (b ≡ true) × (ctx' ≡ ctx₁) = ground arith in rw (eb, ec) (good, found)
  extend-rest c cs next finds sum ctx ctx₁ ctx' false b s good found h =
      let ctx₂ : DfsContext = record ctx₁ { path = pop ctx₁.path } in
      let back : pop ctx₁.path ≡ ctx.path = ap pop found ∙ pop-push c.0 ctx.path in
      let (good', found') =
        finds sum ctx₂ ctx' b (rw back (Searching-without values ctx.path sum c cs s)) good h in
      (good', rw back at found')

  extend-Finds :
      (c : Entry) (cs : List Entry) (next : NoteAmount → D Bool)
      → Finds cs next
      → Finds (c ∷ cs) (λ sum. extend c sum next)
  unfolding extend
  extend-Finds c cs next finds sum ctx ctx' b s good h = >>=-elim (visit c.0) _ h λ _ ctx₁ e₁ h₁.
      >>=-elim (ok_or (checked_add sum c.1) PlanError.input_amount_overflow) _ h₁ λ t ctx₂ e₂ h₂.
        >>=-elim (next t) _ h₂ λ done ctx₃ e₃ h₃.
          let total : t ≡ sum + c.1 = (checked_add-some sum c.1 t (ground arith)).0 in
          let path₂ : ctx₂.path ≡ push c.0 ctx.path = ground (arith, visit_lem c.0 ctx ctx₁ e₁) in
          let same_best : ctx₂.best_overshoot ≡ ctx.best_overshoot =
            ground (arith, visit_lem c.0 ctx ctx₁ e₁) in
          let (good', found) =
            finds t ctx₂ ctx₃ done (rw (total, path₂) (Searching-push values ctx.path sum c cs s))
              (rw same_best good) e₃ in
          extend-rest c cs next finds sum ctx ctx₃ ctx' done b s good' (rw path₂ at found) h₃

  pub dfs-Finds : (cs : List Entry) → Finds cs (dfs target_k goal cs)
  unfolding dfs
  dfs-Finds [] sum ctx ctx' b s good h = elim (Bool-cases (length ctx.path == target_k)) [
    | inl full ↦ judge_lem sum ctx ctx' b s.choice (ground arith) good (ground arith)
    | inr room ↦
        let (eb, ec) : (b ≡ false) × (ctx' ≡ ctx) = ground arith in rw (eb, ec) (good, refl)
  ]
  dfs-Finds (c ∷ cs) sum ctx ctx' b s good h = elim (Bool-cases (length ctx.path == target_k)) [
    | inl full ↦ judge_lem sum ctx ctx' b s.choice (ground arith) good (ground arith)
    | inr room ↦ elim (Bool-cases (leb goal sum || ctx.iteration_limit == 0)) [
      | inl stop ↦
          let (eb, ec) : (b ≡ false) × (ctx' ≡ ctx) = ground arith in rw (eb, ec) (good, refl)
      | inr more ↦
          extend-Finds c cs (dfs target_k goal cs) (dfs-Finds cs) sum ctx ctx' b s good
            (ground arith)
    ]
  ]
