-- ===== src/Planner/Combination/Overflow.antt =====
-- The failure of a checked sum, and bounds of partial sums by the sum of all notes.
use paymage.Base.{
  ℕ, zero, suc, ◌+◌, ◌≡◌, ◌≢◌, ◌<◌, ◌≤◌, ltb, some, List, [], ◌∷◌, Elem, Distinct, sum, get_elem?,
  get_or, arith, refl, ap, sym, Bool-cases, inl, inr,
}
use paymage.Host.Outcome.{Outcome, Action, ok, err, trap, ok_or, ◌>>=◌}
use paymage.Planner.Amounts.{NoteAmount, checked_add, u128_max}
use paymage.Planner.Errors.{PlanError}
use paymage.Planner.Combination.Defs.{Entry}
use paymage.Planner.Combination.Choice.{sum_at, amounts}

-- A result, or an overflow, which only a total beyond a u128 gives.
abbrev pub Overflows : ℕ → {W A : Type 0} → Outcome W PlanError A → Type 0
Overflows total (ok a w) = Unit
Overflows total (err e) = (e ≡ PlanError.input_amount_overflow) × (u128_max < total)
Overflows total trap = ⊥

pub Overflows-bind :
    {W A B : Type 0} (total : ℕ) (m : Action W PlanError A) (f : A → Action W PlanError B) (w : W)
    → Overflows total (m w)
    → ((a : A) (w' : W) → m w ≡ ok a w' → Overflows total (f a w'))
    → Overflows total ((m >>= f) w)
Overflows-bind {W} {A} {B} total m f w h k = go (m w) refl h
  where
    go :
        (o : Outcome W PlanError A)
        → m w ≡ o
        → Overflows total o
        → Overflows total (elim o as (λ _. Outcome W PlanError B) [
          | ok a w' ↦ f a w'
          | err e ↦ err e
          | trap ↦ trap
        ])
    go (ok a w') e h = k a w' e
    go (err x) e h = h
    go trap e h = h

-- A checked sum within the total, and what follows it.
pub add-Overflows :
    {W B : Type 0} (total a b : ℕ) (f : NoteAmount → Action W PlanError B) (w : W)
    → a + b ≤ total
    → Overflows total (f (a + b) w)
    → Overflows total ((ok_or (checked_add a b) PlanError.input_amount_overflow >>= f) w)
unfolding checked_add
add-Overflows total a b f w within next = elim (Bool-cases (ltb u128_max (a + b))) [
  | inl beyond ↦ rw beyond (refl, ground arith)
  | inr fits ↦ rw fits next
]

one_within : (s : List Entry) (j : ℕ) (y : Entry) → get_elem? s j ≡ some y → y.1 ≤ sum (amounts s)
one_within [] j y q = cc
one_within (e ∷ es) zero y q =
    let same : e ≡ y = ground arith in omega (arith, ap (λ (z : Entry). z.1) same)
one_within (e ∷ es) (suc j) y q = omega (arith, one_within es j y q)

-- Two different notes hold no more than all together.
pub pair_within :
    (s : List Entry) (i j : ℕ) (x y : Entry)
    → i < j
    → get_elem? s i ≡ some x
    → get_elem? s j ≡ some y
    → x.1 + y.1 ≤ sum (amounts s)
pair_within [] i j x y lt p q = cc
pair_within (e ∷ es) zero zero x y lt p q = absurd (omega arith)
pair_within (e ∷ es) zero (suc j) x y lt p q =
    let one = one_within es j y q in
    let same : e ≡ x = ground arith in omega (arith, one, ap (λ (z : Entry). z.1) same)
pair_within (e ∷ es) (suc i) zero x y lt p q = absurd (omega arith)
pair_within (e ∷ es) (suc i) (suc j) x y lt p q =
    omega (arith, pair_within es i j x y (omega arith) p q)

abbrev clear : ℕ → List NoteAmount → List NoteAmount
clear i [] = []
clear zero (x ∷ xs) = 0 ∷ xs
clear (suc i) (x ∷ xs) = x ∷ clear i xs

sum-clear : (i : ℕ) (xs : List NoteAmount) → sum xs ≡ get_or xs i 0 + sum (clear i xs)
sum-clear i [] = omega arith
sum-clear zero (x ∷ xs) = omega arith
sum-clear (suc i) (x ∷ xs) = omega (arith, sum-clear i xs)

get_or-clear : (i j : ℕ) (xs : List NoteAmount) → i ≢ j → get_or (clear i xs) j 0 ≡ get_or xs j 0
get_or-clear i j [] ne = refl
get_or-clear zero zero (x ∷ xs) ne = absurd (ne refl)
get_or-clear zero (suc j) (x ∷ xs) ne = refl
get_or-clear (suc i) zero (x ∷ xs) ne = refl
get_or-clear (suc i) (suc j) (x ∷ xs) ne = get_or-clear i j xs (λ e. ne (ap suc e))

sum_at-clear :
    (i : ℕ) (is : List ℕ) (xs : List NoteAmount)
    → ¬ Elem i is
    → sum_at (clear i xs) is ≡ sum_at xs is
sum_at-clear i [] xs out = refl
sum_at-clear i (j ∷ js) xs out =
    let ne : i ≢ j = λ e. out (inl (sym e)) in
    omega (arith, get_or-clear i j xs ne, sum_at-clear i js xs (λ h. out (inr h)))

-- Different notes hold no more than all together.
pub sum_at-le-sum : (is : List ℕ) (xs : List NoteAmount) → Distinct is → sum_at xs is ≤ sum xs
sum_at-le-sum [] xs d = omega arith
sum_at-le-sum (i ∷ is) xs d =
    omega (arith, sum-clear i xs, sum_at-clear i is xs d.0, sum_at-le-sum is (clear i xs) d.1)
