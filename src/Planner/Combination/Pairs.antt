-- ===== src/Planner/Combination/Pairs.antt =====
-- `find_combination` prefers two notes: what its result says of every pair of the wallet.
use paymage.Base.{
  ℕ, zero, suc, ◌+◌, ◌≡◌, ◌≢◌, ◌<◌, ◌≤◌, some, List, [], ◌∷◌, length, get_elem?, arith, inl, inr,
  ◌⊎◌, ap, Perm, nil, keep, swap, trans,
}
use paymage.Host.Outcome.{ok, pure, >>=-elim}
use paymage.Planner.Facts.{split_lt}
use paymage.Planner.Errors.{Fallible}
use paymage.Planner.Amounts.{NoteAmount}
use paymage.Planner.Combination.Defs.{
  Entry, CombinationResult, OneScan, TwoScan, one_scan, two_scan,
}
use paymage.Planner.Combination.Search.{KScan, enumerate, choose, k_scan, find_combination}
use paymage.Planner.Combination.TwoScan.{two_scan-IsBestPair}
use paymage.Planner.Combination.Window.{IsBestPair, amount_at}
use paymage.Planner.Combination.Find.{IsSort}

get_elem?-Perm :
    {xs ys : List Entry}
    → Perm xs ys
    → (a : ℕ) (e : Entry) → get_elem? xs a ≡ some e
    → (b : ℕ) × (get_elem? ys b ≡ some e)
get_elem?-Perm nil a e h = (a, h)
get_elem?-Perm (keep x p) zero e h = (0, h)
get_elem?-Perm (keep x p) (suc a) e h = let (b, q) = get_elem?-Perm p a e h in (suc b, q)
get_elem?-Perm (swap x y xs) zero e h = (1, h)
get_elem?-Perm (swap x y xs) (suc zero) e h = (0, h)
get_elem?-Perm (swap x y xs) (suc (suc a)) e h = (suc (suc a), h)
get_elem?-Perm (trans p q) a e h = let (b, k) = get_elem?-Perm p a e h in get_elem?-Perm q b e k

get_elem?-enumerate :
    (xs : List NoteAmount) (i a x : ℕ)
    → get_elem? xs a ≡ some x
    → get_elem? (enumerate i xs) a ≡ some (i + a, x)
unfolding enumerate
get_elem?-enumerate [] i a x h = cc
get_elem?-enumerate (y ∷ ys) i zero x h = ground arith
get_elem?-enumerate (y ∷ ys) i (suc a) x h =
    let e : suc i + a ≡ i + suc a = omega arith in rw (← e) (get_elem?-enumerate ys (suc i) a x h)

get_elem?-range : (s : List Entry) (b : ℕ) (e : Entry) → get_elem? s b ≡ some e → b < length s
get_elem?-range [] b e h = cc
get_elem?-range (x ∷ xs) zero e h = omega arith
get_elem?-range (x ∷ xs) (suc b) e h = omega (arith, get_elem?-range xs b e h)

module _ (values : List NoteAmount) (goal : NoteAmount) where
  -- Two different notes of the wallet.
  abbrev pub EveryPair : (NoteAmount → Type 0) → Type 0
  EveryPair P =
      (i j x y : ℕ) → i ≢ j → get_elem? values i ≡ some x → get_elem? values j ≡ some y → P (x + y)

  -- What a result says of the sums of two notes.
  abbrev pub SaysOfPairs : CombinationResult → Type 0
  SaysOfPairs (CombinationResult.two_exact i j) = Unit
  SaysOfPairs (CombinationResult.two_overshoot i j excess) =
      EveryPair λ t. (t < goal) ⊎ (goal + excess ≤ t)
  SaysOfPairs (CombinationResult.one_exact i) = EveryPair λ t. t ≢ goal
  SaysOfPairs r = EveryPair λ t. t < goal

  module _ (s : List Entry) (p : Perm (enumerate 0 values) s) where
    -- What holds of the sum at any two positions of the sorted notes holds of any two notes.
    of_positions :
        (P : NoteAmount → Type 0)
        → ((a b : ℕ) → a < b → b < length s → P (amount_at s a + amount_at s b))
        → EveryPair P
    of_positions P h i j x y apart ei ej =
        let (a, ea) = get_elem?-Perm p i (0 + i, x) (get_elem?-enumerate values 0 i x ei) in
        let (b, eb) = get_elem?-Perm p j (0 + j, y) (get_elem?-enumerate values 0 j y ej) in
        order a b ea eb (split_lt a b) (split_lt b a)
      where
        order :
            (a b : ℕ)
            → get_elem? s a ≡ some (0 + i, x)
            → get_elem? s b ≡ some (0 + j, y)
            → (a < b) ⊎ (b ≤ a)
            → (b < a) ⊎ (a ≤ b)
            → P (x + y)
        order a b ea eb (inl lt) c =
            let t : amount_at s a + amount_at s b ≡ x + y = rw (ea, eb) in
            rw (← t) (h a b lt (get_elem?-range s b (0 + j, y) eb))
        order a b ea eb (inr ge) (inl lt) =
            let t : amount_at s b + amount_at s a ≡ x + y = rw (ea, eb) (omega arith) in
            rw (← t) (h b a lt (get_elem?-range s a (0 + i, x) ea))
        order a b ea eb (inr ge) (inr le) =
            let same : a ≡ b = omega arith in
            let ij : i ≡ j = ground (arith, ap (get_elem? s) same) in absurd (apart ij)

  choose-SaysOfPairs :
      (s : List Entry)
      → Perm (enumerate 0 values) s
      → (two : TwoScan) (one : OneScan) (r : CombinationResult) → IsBestPair s goal two
      → choose s goal two one tt ≡ ok r tt
      → SaysOfPairs r
  unfolding choose
  choose-SaysOfPairs s p (TwoScan.exact i j) one r best h =
      let e : r ≡ CombinationResult.two_exact i j = ground arith in rw e tt
  choose-SaysOfPairs s p (TwoScan.overshoot i j x) (OneScan.exact k) r best h =
      let e : r ≡ CombinationResult.one_exact k = ground arith in
      rw e (
        of_positions s p (λ t. t ≢ goal)
          λ a b lt high q. elim (best.2 a b lt high) [
            | inl u ↦ omega arith
            | inr o ↦ omega (arith, best.0)
          ])
  choose-SaysOfPairs s p (TwoScan.overshoot i j x) (OneScan.overshoot k y) r best h =
      let e : r ≡ CombinationResult.two_overshoot i j x = ground arith in
      rw e (of_positions s p (λ t. (t < goal) ⊎ (goal + x ≤ t)) best.2)
  choose-SaysOfPairs s p (TwoScan.overshoot i j x) OneScan.miss r best h =
      let e : r ≡ CombinationResult.two_overshoot i j x = ground arith in
      rw e (of_positions s p (λ t. (t < goal) ⊎ (goal + x ≤ t)) best.2)
  choose-SaysOfPairs s p TwoScan.miss (OneScan.exact k) r best h =
      let e : r ≡ CombinationResult.one_exact k = ground arith in
      rw e (of_positions s p (λ t. t ≢ goal) λ a b lt high q. omega (arith, best a b lt high))
  choose-SaysOfPairs s p TwoScan.miss (OneScan.overshoot k y) r best h =
      let e : r ≡ CombinationResult.one_overshoot k y = ground arith in
      rw e (of_positions s p (λ t. t < goal) best)
  choose-SaysOfPairs s p TwoScan.miss OneScan.miss r best h =
      >>=-elim (k_scan s goal) _ h λ found u e h'. late found r h'
    where
      late :
          (found : KScan) (r : CombinationResult)
          → (elim found as (λ _. Fallible CombinationResult) [
            | KScan.exact indices ↦ pure (CombinationResult.exact_k indices)
            | KScan.overshoot indices excess ↦ pure (CombinationResult.overshoot indices excess)
            | KScan.miss ↦ pure CombinationResult.impossible
          ])
              tt
            ≡ ok r tt
          → SaysOfPairs r
      late (KScan.exact q) r k =
          let e : r ≡ CombinationResult.exact_k q = ground arith in
          rw e (of_positions s p (λ t. t < goal) best)
      late (KScan.overshoot q x) r k =
          let e : r ≡ CombinationResult.overshoot q x = ground arith in
          rw e (of_positions s p (λ t. t < goal) best)
      late KScan.miss r k =
          let e : r ≡ CombinationResult.impossible = ground arith in
          rw e (of_positions s p (λ t. t < goal) best)

module _ (sort : List Entry → List Entry) (is_sort : IsSort sort) (goal : NoteAmount) where
  -- Two notes come first: unless the result is two notes that sum to the goal, no two different
  -- notes of the wallet do; the excess of a result of two notes is the least that two notes have;
  -- and where another inexact result, or none, is returned, every two notes are below the goal.
  pub find_combination-SaysOfPairs :
      (values : List NoteAmount) (r : CombinationResult)
      → find_combination sort values goal tt ≡ ok r tt
      → SaysOfPairs values goal r
  unfolding find_combination
  find_combination-SaysOfPairs [] r h =
      let e : r ≡ CombinationResult.impossible = ground arith in rw e (λ i j x y apart ei ej. cc)
  find_combination-SaysOfPairs (v ∷ vs) r h =
      let s = sort (enumerate 0 (v ∷ vs)) in
      >>=-elim (two_scan s goal) _ h λ two u e h'.
        choose-SaysOfPairs (v ∷ vs) goal s (is_sort.rearranged (enumerate 0 (v ∷ vs))) two
          (one_scan s goal) r
          (two_scan-IsBestPair s goal (is_sort.ascending (enumerate 0 (v ∷ vs))) two e) h'
