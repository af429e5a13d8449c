-- ===== src/Base/Lists.antt =====
-- Lists measured and indexed by native numbers, under the library's names.
use Prim.Native.Nat.{◌-◌, ◌<◌, ℕ, zero, suc, ◌+◌, ◌<◌}
use mathlib.Core.Path.{◌≡◌, ap}
use mathlib.Core.Logic.{◌⊎◌, inl, inr}
use mathlib.Core.Bool.{Bool, true, false, ◌||◌}
use paymage.Base.Tests.{◌==◌}
use mathlib.Core.List.{List, [], ◌∷◌, ◌++◌}
use mathlib.Core.Option.{Option, none, some}
use native.Mathlib.Omega.{arith}

module _ {ℓ} {A : Type ℓ} where
  abbrev pub length : List A → ℕ
  length [] = 0
  length (x ∷ xs) = suc (length xs)

  abbrev pub get_elem? : List A → ℕ → Option A
  get_elem? [] i = none
  get_elem? (x ∷ xs) zero = some x
  get_elem? (x ∷ xs) (suc i) = get_elem? xs i

  abbrev pub get_or : List A → ℕ → A → A
  get_or [] i d = d
  get_or (x ∷ xs) zero d = x
  get_or (x ∷ xs) (suc i) d = get_or xs i d

  abbrev pub take : ℕ → List A → List A
  take zero xs = []
  take (suc n) [] = []
  take (suc n) (x ∷ xs) = x ∷ take n xs

  abbrev pub All {κ} : (A → Type κ) → List A → Type κ
  All P [] = Unit
  All P (x ∷ xs) = P x × All P xs

  pub length-append : (xs ys : List A) → length (xs ++ ys) ≡ length xs + length ys
  length-append [] ys = omega arith
  length-append (x ∷ xs) ys = omega (arith, length-append xs ys)

-- Membership by recursion, which tactics take apart.
abbrev pub Elem : ℕ → List ℕ → Type 0
Elem a [] = ⊥
Elem a (x ∷ xs) = (x ≡ a) ⊎ Elem a xs

-- No number stands twice in the list.
abbrev pub Distinct : List ℕ → Type 0
Distinct [] = Unit
Distinct (x ∷ xs) = (¬ Elem x xs) × Distinct xs

abbrev pub sum : List ℕ → ℕ
sum [] = 0
sum (x ∷ xs) = x + sum xs

abbrev pub elem : ℕ → List ℕ → Bool
elem a [] = false
elem a (x ∷ xs) = (x == a) || elem a xs

pub elem→Elem : (a : ℕ) (xs : List ℕ) → elem a xs ≡ true → Elem a xs
elem→Elem a [] h = cc
elem→Elem a (x ∷ xs) h = ground (arith, elem→Elem a xs)

pub Elem→elem : (a : ℕ) (xs : List ℕ) → Elem a xs → elem a xs ≡ true
Elem→elem a [] h = elim h [ ]
Elem→elem a (x ∷ xs) (inl e) = ground arith
Elem→elem a (x ∷ xs) (inr r) = ground (arith, Elem→elem a xs r)

pub get_elem?-cons {ℓ} :
    {A : Type ℓ} (x : A) (xs : List A) (i : ℕ) → 0 < i → get_elem? (x ∷ xs) i ≡ get_elem? xs (i - 1)
get_elem?-cons x xs zero h = absurd (omega arith)
get_elem?-cons x xs (suc i) h = ap (get_elem? xs) (omega arith)

-- The members of a prefix are the elements at the indices below its length.
pub Elem-take :
    (n i : ℕ) (a : ℕ) (xs : List ℕ) → i < n → get_elem? xs i ≡ some a → Elem a (take n xs)
Elem-take zero i a xs h e = absurd (omega arith)
Elem-take (suc n) i a [] h e = cc
Elem-take (suc n) zero a (x ∷ xs) h e = inl (ground arith)
Elem-take (suc n) (suc i) a (x ∷ xs) h e = inr (Elem-take n i a xs (omega arith) e)

pub take-index :
    (n : ℕ) (a : ℕ) (xs : List ℕ)
    → Elem a (take n xs)
    → (i : ℕ) × (i < n) × (get_elem? xs i ≡ some a)
take-index zero a xs h = elim h [ ]
take-index (suc n) a [] h = elim h [ ]
take-index (suc n) a (x ∷ xs) (inl e) = (0, omega arith, ap some e)
take-index (suc n) a (x ∷ xs) (inr r) =
    let (i, lt, e) = take-index n a xs r in (suc i, omega arith, e)
