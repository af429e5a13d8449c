-- ===== src/Planner/Facts.antt =====
-- Case splits that the planner's proofs share.
use paymage.Base.{
  ℕ, zero, suc, ◌+◌, ◌-◌, ◌==◌, ◌≡◌, ◌<◌, ◌≤◌, ltb, List, [], ◌∷◌, Option, none, some, length,
  get_elem?, arith, refl, Bool-cases, ◌⊎◌, inl, inr,
}
use paymage.Host.Outcome.{Outcome, ok, err, trap, ok_or, or_trap}
use paymage.Planner.Amounts.{checked_add, checked_sub, u128_max}

pub get_elem?-below {ℓ} :
    {A : Type ℓ} (s : List A) (i : ℕ) → i < length s → (x : A) × (get_elem? s i ≡ some x)
get_elem?-below [] i h = absurd (omega arith)
get_elem?-below (x ∷ xs) zero h = (x, refl)
get_elem?-below (x ∷ xs) (suc i) h = get_elem?-below xs i (omega arith)

-- A difference that may not exist, and the test of a difference for zero.
pub data Difference (t goal : ℕ) : Type 0 where
  short : checked_sub t goal ≡ none → t < goal → Difference t goal
  same : checked_sub t goal ≡ some 0 → t ≡ goal → Difference t goal
  over : (d : ℕ) → checked_sub t goal ≡ some d → t ≡ goal + d → 0 < d → Difference t goal

pub difference : (t goal : ℕ) → Difference t goal
unfolding checked_sub
difference t goal = elim (Bool-cases (ltb t goal)) [
  | inl less ↦ short (ground arith) (ground arith)
  | inr more ↦ elim (Bool-cases (t == goal)) [
    | inl equal ↦ same (ground arith) (ground arith)
    | inr other ↦ over (t - goal) (ground arith) (ground arith) (ground arith)
  ]
]

pub split_lt : (m n : ℕ) → (m < n) ⊎ (n ≤ m)
split_lt m n = elim (Bool-cases (ltb m n)) [
  | inl t ↦ inl (ground arith)
  | inr f ↦ inr (ground arith)
]

-- A checked sum, where there is one.
pub checked_add-some : (a b t : ℕ) → checked_add a b ≡ some t → (t ≡ a + b) × (a + b ≤ u128_max)
unfolding checked_add
checked_add-some a b t h = ground arith

-- How a computation ended.
pub data Ended {W E A : Type 0} (o : Outcome W E A) : Type 0 where
  finished : (a : A) (w : W) → o ≡ ok a w → Ended o
  failed : (e : E) → o ≡ err e → Ended o
  trapped : o ≡ trap → Ended o

pub ended : {W E A : Type 0} (o : Outcome W E A) → Ended o
ended (ok a w) = finished a w refl
ended (err e) = failed e refl
ended trap = trapped refl

pub checked_sub-some_of_le : (a b : ℕ) → b ≤ a → checked_sub a b ≡ some (a - b)
unfolding checked_sub
checked_sub-some_of_le a b h = ground arith

-- An option whose value was there.
pub or_trap-some :
    {W E A : Type 0} (o : Option A) (x : A) (w w' : W)
    → or_trap {E = E} o w ≡ ok x w'
    → (o ≡ some x) × (w' ≡ w)
or_trap-some none x w w' h = cc
or_trap-some (some y) x w w' h = (ground arith, ground arith)

pub ok_or-some :
    {W E A : Type 0} (o : Option A) (e : E) (x : A) (w w' : W)
    → ok_or o e w ≡ ok x w'
    → (o ≡ some x) × (w' ≡ w)
ok_or-some none e x w w' h = cc
ok_or-some (some y) e x w w' h = (ground arith, ground arith)

pub or_trap-eq_ok :
    {W E A : Type 0} {o : Option A} {x : A} (w : W) → o ≡ some x → or_trap {E = E} o w ≡ ok x w
or_trap-eq_ok w h = rw h refl

pub ok_or-eq_ok :
    {W E A : Type 0} {o : Option A} {x : A} (e : E) (w : W) → o ≡ some x → ok_or o e w ≡ ok x w
ok_or-eq_ok e w h = rw h refl
