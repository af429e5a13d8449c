-- ===== src/Planner/Combination/TwoScan.antt =====
-- The scan for two notes: the pair that it returns, and that no other pair is better.
use paymage.Base.{
  ℕ, zero, suc, ◌+◌, ◌-◌, ◌≡◌, ◌<◌, ltb, Option, none, some, List, length, get_elem?, arith, ◌⊎◌,
  inl, inr, Bool-cases,
}
use paymage.Host.Outcome.{ok}
use paymage.Planner.Amounts.{NoteAmount, checked_add, checked_sub}
use paymage.Planner.Facts.{get_elem?-below, split_lt, short, same, over, difference}
use paymage.Planner.Combination.Defs.{Entry, TwoScan, Best, two_result, two_loop, two_scan}
use paymage.Planner.Combination.Window.{
  amount_at, Ascending, Pair, IsBestPair, IsSoundBest, done, Passed, Beaten-short, after,
  Beaten-after, Beaten-over, IsSoundBest-after,
}

module _ (s : List Entry) (goal : NoteAmount) (up : Ascending s) where
  -- Where the sum at the ends of the window is below the goal, no pair with the left end reaches it.
  Passed-left :
      (gap left : ℕ) (best : Option Best)
      → left + suc gap < length s
      → amount_at s left + amount_at s (left + suc gap) < goal
      → Passed s goal (suc gap) left best
      → Passed s goal gap (left + 1) best
  Passed-left gap left best low under passed a b ordered high (inr out) =
      passed a b ordered high (inr (omega arith))
  Passed-left gap left best low under passed a b ordered high (inl out) = elim (split_lt a left) [
    | inl less ↦ passed a b ordered high (inl less)
    | inr more ↦ elim (split_lt (left + suc gap) b) [
      | inl beyond ↦ passed a b ordered high (inr beyond)
      | inr within ↦
          let same : a ≡ left = omega arith in
          let le = up b (left + suc gap) within low in
          rw same (Beaten-short best goal (amount_at s left + amount_at s b) (omega arith))
    ]
  ]

  -- Where it overshoots the goal by `d`, no pair with the right end overshoots it by less.
  Passed-right :
      (gap left i j d : ℕ) (best : Option Best)
      → left + suc gap < length s
      → amount_at s left + amount_at s (left + suc gap) ≡ goal + d
      → Passed s goal (suc gap) left best
      → Passed s goal gap left (after i j d best)
  Passed-right gap left i j d best low at_ends passed a b ordered high (inl out) =
      Beaten-after i j d best goal (amount_at s a + amount_at s b)
        (passed a b ordered high (inl out))
  Passed-right gap left i j d best low at_ends passed a b ordered high (inr out) =
      elim (split_lt (left + suc gap) b) [
        | inl beyond ↦
            Beaten-after i j d best goal (amount_at s a + amount_at s b)
              (passed a b ordered high (inr beyond))
        | inr within ↦ elim (split_lt a left) [
          | inl less ↦
              Beaten-after i j d best goal (amount_at s a + amount_at s b)
                (passed a b ordered high (inl less))
          | inr more ↦
              let same : b ≡ left + suc gap = omega arith in
              let le = up left a more (omega arith) in
              Beaten-over i j d best goal (amount_at s a + amount_at s b) (rw same (omega arith))
        ]
      ]

  -- One round, by the difference of the sum at the ends and the goal.
  module _ (gap left : ℕ) (best : Option Best) (r : TwoScan) (x y : Entry)
      (at_left : get_elem? s left ≡ some x) (at_right : get_elem? s (left + suc gap) ≡ some y)
      (h : two_loop s goal (suc gap) left best tt ≡ ok r tt) where
    round-short :
        checked_sub (x.1 + y.1) goal ≡ none → two_loop s goal gap (left + 1) best tt ≡ ok r tt
    unfolding two_loop checked_add
    round-short e = ground arith

    round-same : checked_sub (x.1 + y.1) goal ≡ some 0 → r ≡ TwoScan.exact x.0 y.0
    unfolding two_loop checked_add
    round-same e = ground arith

    round-over :
        (d : ℕ)
        → checked_sub (x.1 + y.1) goal ≡ some d
        → 0 < d
        → two_loop s goal gap left (after x.0 y.0 d best) tt ≡ ok r tt
    unfolding two_loop checked_add
    round-over d e positive = ground arith

  IsPair-ends :
      (gap left : ℕ) (x y : Entry) (total : ℕ)
      → get_elem? s left ≡ some x
      → get_elem? s (left + suc gap) ≡ some y
      → x.1 + y.1 ≡ total
      → Pair s x.0 y.0 total
  IsPair-ends gap left x y total at_left at_right e = (
    left,
    left + suc gap,
    x.1,
    y.1,
    record { ordered = omega arith; first = at_left; second = at_right; sums = e },
  )

  two_loop-IsBestPair :
      (gap left : ℕ) (best : Option Best) (r : TwoScan)
      → left + gap < length s
      → IsSoundBest s goal best
      → Passed s goal gap left best
      → two_loop s goal gap left best tt ≡ ok r tt
      → IsBestPair s goal r
  unfolding two_loop
  two_loop-IsBestPair zero left best r low sound passed h =
      let e : r ≡ two_result best = ground arith in
      let outside : (a b : ℕ) → a < b → (a < left) ⊎ (left + 0 < b) =
        λ a b lt. elim (split_lt a left) [ inl out ↦ inl out | inr beyond ↦ inr (omega arith) ] in
      rw e (done s goal best sound λ a b lt high. passed a b lt high (outside a b lt))
  two_loop-IsBestPair (suc gap) left best r low sound passed h =
      go (get_elem?-below s left (omega arith)) (get_elem?-below s (left + suc gap) low)
        (two_loop-IsBestPair gap (left + 1) best r (omega arith) sound)
        (λ i j d. two_loop-IsBestPair gap left (after i j d best) r (omega arith))
    where
      go :
          (x : Entry) × (get_elem? s left ≡ some x)
          → (y : Entry) × (get_elem? s (left + suc gap) ≡ some y)
          → (Passed s goal gap (left + 1) best
              → two_loop s goal gap (left + 1) best tt ≡ ok r tt
              → IsBestPair s goal r)
          → ((i j d : ℕ)
              → IsSoundBest s goal (after i j d best)
              → Passed s goal gap left (after i j d best)
              → two_loop s goal gap left (after i j d best) tt ≡ ok r tt
              → IsBestPair s goal r)
          → IsBestPair s goal r
      go (x, at_left) (y, at_right) raise lower =
          let t : x.1 + y.1 ≡ amount_at s left + amount_at s (left + suc gap) =
            rw (at_left, at_right) in
          elim (difference (x.1 + y.1) goal) [
            | short e less ↦
                raise (Passed-left gap left best low (omega arith) passed)
                  (round-short gap left best r x y at_left at_right h e)
            | same e equal ↦
                rw (round-same gap left best r x y at_left at_right h e)
                  (IsPair-ends gap left x y goal at_left at_right equal)
            | over d e equal positive ↦
                lower x.0 y.0 d
                  (IsSoundBest-after s x.0 y.0 d best goal positive
                    (IsPair-ends gap left x y (goal + d) at_left at_right equal) sound)
                  (Passed-right gap left x.0 y.0 d best low (omega arith) passed)
                  (round-over gap left best r x y at_left at_right h d e positive)
          ]

  -- The scan of notes in ascending order returns a pair of entries that sums to the goal, or a pair
  -- that overshoots it by the excess, and then no pair sums to the goal or overshoots it by less;
  -- when it misses, every pair is below the goal.
  pub two_scan-IsBestPair : (r : TwoScan) → two_scan s goal tt ≡ ok r tt → IsBestPair s goal r
  unfolding two_scan
  two_scan-IsBestPair r h = elim (Bool-cases (ltb (length s) 2)) [
    | inl few ↦
        let e : r ≡ TwoScan.miss = ground arith in rw e (λ a b lt high. absurd (ground arith))
    | inr enough ↦
        two_loop-IsBestPair (length s - 1) 0 none r (ground arith) tt
          (λ a b lt high out. absurd (out_of_range a b lt high out)) (ground arith)
  ]
    where
      out_of_range : (a b : ℕ) → a < b → b < length s → (a < 0) ⊎ (0 + (length s - 1) < b) → ⊥
      out_of_range a b lt high (inl x) = omega arith
      out_of_range a b lt high (inr x) = omega arith
