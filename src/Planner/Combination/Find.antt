-- ===== src/Planner/Combination/Find.antt =====
-- `find_combination` as a whole: its result reaches the goal, and pairs come first.
use paymage.Base.{
  ℕ, zero, suc, ◌+◌, ◌≡◌, ◌≢◌, ◌<◌, ◌≤◌, some, List, [], ◌∷◌, length, All, Elem, Distinct, sum,
  get_elem?, arith, refl, inl, inr, ◌⊎◌, ap, ◌∙◌, sym, Perm, All-Perm, Distinct-Perm, sum-Perm,
  length-Perm,
}
use mathlib.Core.Option.{some-injective}
use paymage.Host.Outcome.{ok, pure, >>=-elim}
use paymage.Planner.Facts.{short, same, over, difference}
use paymage.Planner.Amounts.{NoteAmount}
use paymage.Planner.Errors.{Fallible}
use paymage.Planner.Combination.Defs.{
  Entry, CombinationResult, OneScan, TwoScan, one_scan, two_scan, transaction_limit,
}
use paymage.Planner.Combination.Search.{KScan, k_scan, enumerate, choose, find_combination}
use paymage.Planner.Combination.TwoScan.{two_scan-IsBestPair}
use paymage.Planner.Combination.Window.{Ascending, Pair, IsBestPair}
use paymage.Planner.Combination.Choice.{
  IsChoice, IsEntry, indices, amounts, indices-Perm, amounts-Perm, enumerate-IsEntry,
  enumerate-Distinct, amounts-enumerate, get_elem?-get_or,
}
use paymage.Planner.Combination.Sound.{IsSoundK, k_scan_lem}

-- What is known of the sort: it rearranges the entries, and puts their amounts in ascending order.
pub record IsSort (sort : List Entry → List Entry) : Type 0 where
  pub rearranged : (es : List Entry) → Perm es (sort es)
  pub ascending : (es : List Entry) → Ascending (sort es)

Elem-get_elem? :
    (s : List Entry) (a : ℕ) (e : Entry) → get_elem? s a ≡ some e → Elem e.0 (indices s)
Elem-get_elem? [] a e h = cc
Elem-get_elem? (x ∷ xs) zero e h = inl (ground arith)
Elem-get_elem? (x ∷ xs) (suc a) e h = inr (Elem-get_elem? xs a e h)

Distinct-get_elem? :
    (s : List Entry) (a b : ℕ) (x y : Entry)
    → Distinct (indices s)
    → a < b
    → get_elem? s a ≡ some x
    → get_elem? s b ≡ some y
    → x.0 ≢ y.0
Distinct-get_elem? [] a b x y d lt p q q' = cc
Distinct-get_elem? (e ∷ es) zero zero x y d lt p q q' = absurd (omega arith)
Distinct-get_elem? (e ∷ es) zero (suc b) x y d lt p q q' =
    let first : e.0 ≡ y.0 = ground arith in d.0 (rw first (Elem-get_elem? es b y q))
Distinct-get_elem? (e ∷ es) (suc a) zero x y d lt p q q' = absurd (omega arith)
Distinct-get_elem? (e ∷ es) (suc a) (suc b) x y d lt p q q' =
    Distinct-get_elem? es a b x y d.1 (omega arith) p q q'

All-get_elem? :
    (P : Entry → Type 0) (s : List Entry) (a : ℕ) (e : Entry)
    → All P s
    → get_elem? s a ≡ some e
    → P e
All-get_elem? P [] a e h q = cc
All-get_elem? P (x ∷ xs) zero e h q = rw (← some-injective x e q) h.0
All-get_elem? P (x ∷ xs) (suc a) e h q = All-get_elem? P xs a e h.1 q

module _ (values : List NoteAmount) (goal : NoteAmount) where
  -- The notes that a result names are different notes of the wallet and reach the goal, exactly or
  -- with the excess that it names; where it finds none, the whole wallet is below the goal.
  abbrev pub IsSound : CombinationResult → Type 0
  IsSound (CombinationResult.two_exact i j) = IsChoice values (i ∷ j ∷ []) goal
  IsSound (CombinationResult.one_exact i) = IsChoice values (i ∷ []) goal
  IsSound (CombinationResult.two_overshoot i j excess) =
      (0 < excess) × IsChoice values (i ∷ j ∷ []) (goal + excess)
  IsSound (CombinationResult.one_overshoot i excess) =
      (0 < excess) × IsChoice values (i ∷ []) (goal + excess)
  IsSound (CombinationResult.exact_k p) =
      IsChoice values p goal × (3 ≤ length p) × (length p ≤ transaction_limit)
  IsSound (CombinationResult.overshoot p excess) =
      IsChoice values p (goal + excess) × (0 < length p)
  IsSound CombinationResult.impossible = (sum values < goal) ⊎ (values ≡ [])

  abbrev IsSoundOne : OneScan → Type 0
  IsSoundOne (OneScan.exact i) = IsChoice values (i ∷ []) goal
  IsSoundOne (OneScan.overshoot i excess) = (0 < excess) × IsChoice values (i ∷ []) (goal + excess)
  IsSoundOne OneScan.miss = Unit

  IsEntry-IsChoice : (e : Entry) → IsEntry values e → IsChoice values (e.0 ∷ []) e.1
  IsEntry-IsChoice e h =
      let (lt, q) = get_elem?-get_or values e.0 e.1 h in
      record { distinct = ((λ x. elim x [ ]), tt); in_range = (lt, tt); sums = omega arith }

  one_scan_lem : (s : List Entry) → All (IsEntry values) s → IsSoundOne (one_scan s goal)
  unfolding one_scan
  one_scan_lem [] h = tt
  one_scan_lem (e ∷ es) h = elim (difference e.1 goal) [
    | short q less ↦
        let r : one_scan (e ∷ es) goal ≡ one_scan es goal = ground arith in
        rw r (one_scan_lem es h.1)
    | same q equal ↦
        let r : one_scan (e ∷ es) goal ≡ OneScan.exact e.0 = ground arith in
        rw r (rw equal at (IsEntry-IsChoice e h.0))
    | over d q equal positive ↦
        let r : one_scan (e ∷ es) goal ≡ OneScan.overshoot e.0 d = ground arith in
        rw r (positive, rw equal at (IsEntry-IsChoice e h.0))
  ]

  Pair-IsChoice :
      (s : List Entry) (i j t : ℕ)
      → All (IsEntry values) s
      → Distinct (indices s)
      → Pair s i j t
      → IsChoice values (i ∷ j ∷ []) t
  Pair-IsChoice s i j t entries distinct (a, b, x, y, p) =
      let (lt, q) =
        get_elem?-get_or values i x (All-get_elem? (IsEntry values) s a (i, x) entries p.first) in
      let (lt', q') =
        get_elem?-get_or values j y (All-get_elem? (IsEntry values) s b (j, y) entries p.second) in
      let apart : i ≢ j =
        Distinct-get_elem? s a b (i, x) (j, y) distinct p.ordered p.first p.second in
      record {
        distinct =
            ((λ h. elim h [ inl e ↦ apart (sym e) | inr r ↦ elim r [ ] ]), ((λ h. elim h [ ]), tt));
        in_range = (lt, (lt', tt));
        sums = omega (arith, p.sums);
      }

  module _ (s : List Entry) (entries : All (IsEntry values) s) (distinct : Distinct (indices s))
      (whole : sum (amounts s) ≡ sum values) (some_notes : 0 < length s) where
    k_choice :
        (found : KScan)
        → IsSoundK values goal (sum (amounts s)) found
        → (r : CombinationResult)
        → (elim found as (λ _. Fallible CombinationResult) [
          | KScan.exact indices ↦ pure (CombinationResult.exact_k indices)
          | KScan.overshoot indices excess ↦ pure (CombinationResult.overshoot indices excess)
          | KScan.miss ↦ pure CombinationResult.impossible
        ])
            tt
          ≡ ok r tt
        → IsSound r
    k_choice (KScan.exact p) h r e =
        let q : r ≡ CombinationResult.exact_k p = ground arith in rw q h
    k_choice (KScan.overshoot p x) h r e =
        let q : r ≡ CombinationResult.overshoot p x = ground arith in rw q h
    k_choice KScan.miss h r e =
        let q : r ≡ CombinationResult.impossible = ground arith in rw q (inl (rw whole at h))

    search_more :
        (r : CombinationResult) → choose s goal TwoScan.miss OneScan.miss tt ≡ ok r tt → IsSound r
    unfolding choose
    search_more r h = >>=-elim (k_scan s goal) _ h λ found u e h'.
        k_choice found (k_scan_lem values goal s found entries distinct some_notes e) r h'

    choose-IsSound :
        (two : TwoScan) (one : OneScan) (r : CombinationResult)
        → IsBestPair s goal two
        → IsSoundOne one
        → choose s goal two one tt ≡ ok r tt
        → IsSound r
    unfolding choose
    choose-IsSound (TwoScan.exact i j) one r p q h =
        let e : r ≡ CombinationResult.two_exact i j = ground arith in
        rw e (Pair-IsChoice s i j goal entries distinct p)
    choose-IsSound (TwoScan.overshoot i j x) (OneScan.exact k) r p q h =
        let e : r ≡ CombinationResult.one_exact k = ground arith in rw e q
    choose-IsSound TwoScan.miss (OneScan.exact k) r p q h =
        let e : r ≡ CombinationResult.one_exact k = ground arith in rw e q
    choose-IsSound (TwoScan.overshoot i j x) (OneScan.overshoot k y) r p q h =
        let e : r ≡ CombinationResult.two_overshoot i j x = ground arith in
        rw e (p.0, Pair-IsChoice s i j (goal + x) entries distinct p.1)
    choose-IsSound (TwoScan.overshoot i j x) OneScan.miss r p q h =
        let e : r ≡ CombinationResult.two_overshoot i j x = ground arith in
        rw e (p.0, Pair-IsChoice s i j (goal + x) entries distinct p.1)
    choose-IsSound TwoScan.miss (OneScan.overshoot k y) r p q h =
        let e : r ≡ CombinationResult.one_overshoot k y = ground arith in rw e q
    choose-IsSound TwoScan.miss OneScan.miss r p q h = search_more r h

module _ (sort : List Entry → List Entry) (is_sort : IsSort sort) (goal : NoteAmount) where
  -- Whatever `find_combination` returns for a wallet: the notes that it names are different notes of
  -- the wallet and sum to the goal, or to the goal and the excess named; an exact choice of three
  -- or more has at most ten notes; and it finds nothing only if the whole wallet is below the goal
  -- or empty.
  pub find_combination-IsSound :
      (values : List NoteAmount) (r : CombinationResult)
      → find_combination sort values goal tt ≡ ok r tt
      → IsSound values goal r
  unfolding find_combination enumerate
  find_combination-IsSound [] r h =
      let e : r ≡ CombinationResult.impossible = ground arith in rw e (inr refl)
  find_combination-IsSound (v ∷ vs) r h =
      let values = v ∷ vs in
      let es = enumerate 0 values in
      let p : Perm es (sort es) = is_sort.rearranged es in
      let entries = All-Perm (IsEntry values) p (
        enumerate-IsEntry values values 0
          λ j. let plain : 0 + j ≡ j = omega arith in ap (get_elem? values) plain) in
      let distinct = Distinct-Perm (indices-Perm p) (enumerate-Distinct 0 values) in
      >>=-elim (two_scan (sort es) goal) _ h λ two u e h'.
        choose-IsSound values goal (sort es) entries distinct
          (sym (sum-Perm (amounts-Perm p)) ∙ ap sum (amounts-enumerate 0 values))
          (omega (arith, length-Perm p)) two (one_scan (sort es) goal) r
          (two_scan-IsBestPair (sort es) goal (is_sort.ascending es) two e)
          (one_scan_lem values goal (sort es) entries) h'
