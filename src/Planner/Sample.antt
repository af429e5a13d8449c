-- ===== src/Planner/Sample.antt =====
-- A sort that can be run: insertion.
use paymage.Base.{
  ℕ, zero, suc, ◌<◌, ◌≤◌, leb, List, [], ◌∷◌, length, All, arith, Bool-cases, inl, inr,
  if◌then◌else◌, Perm, Perm-refl, nil, keep, swap, trans, All-Perm,
}
use paymage.Planner.Amounts.{NoteAmount}
use paymage.Planner.Combination.Defs.{Entry}
use paymage.Planner.Combination.Window.{Ascending, amount_at}
use paymage.Planner.Combination.Find.{IsSort}

abbrev place : Entry → List Entry → List Entry
place e [] = e ∷ []
place e (x ∷ xs) = let rest = place e xs in if leb e.1 x.1 then e ∷ x ∷ xs else x ∷ rest

abbrev pub insertion : List Entry → List Entry
insertion [] = []
insertion (e ∷ es) = place e (insertion es)

place-Perm : (e : Entry) (xs : List Entry) → Perm (e ∷ xs) (place e xs)
place-Perm e [] = Perm-refl (e ∷ [])
place-Perm e (x ∷ xs) = elim (Bool-cases (leb e.1 x.1)) [
  | inl le ↦ rw le (Perm-refl (e ∷ x ∷ xs))
  | inr gt ↦ rw gt (trans (swap e x xs) (keep x (place-Perm e xs)))
]

insertion-Perm : (es : List Entry) → Perm es (insertion es)
insertion-Perm [] = nil
insertion-Perm (e ∷ es) = trans (keep e (insertion-Perm es)) (place-Perm e (insertion es))

abbrev AtLeast : NoteAmount → List Entry → Type 0
AtLeast a es = All (λ e. a ≤ e.1) es

abbrev IsSorted : List Entry → Type 0
IsSorted [] = Unit
IsSorted (e ∷ es) = AtLeast e.1 es × IsSorted es

AtLeast-mono : (a b : NoteAmount) (es : List Entry) → a ≤ b → AtLeast b es → AtLeast a es
AtLeast-mono a b [] le h = tt
AtLeast-mono a b (e ∷ es) le h = (omega (arith, h.0), AtLeast-mono a b es le h.1)

place-IsSorted : (e : Entry) (xs : List Entry) → IsSorted xs → IsSorted (place e xs)
place-IsSorted e [] h = (tt, tt)
place-IsSorted e (x ∷ xs) h =
    let rest = place-IsSorted e xs h.1 in
    elim (Bool-cases (leb e.1 x.1)) [
      | inl le ↦
          let low : e.1 ≤ x.1 = ground arith in rw le ((low, AtLeast-mono e.1 x.1 xs low h.0), h)
      | inr gt ↦
          let low : x.1 ≤ e.1 = ground arith in
          rw gt (All-Perm (λ y. x.1 ≤ y.1) (place-Perm e xs) (low, h.0), rest)
    ]

insertion-IsSorted : (es : List Entry) → IsSorted (insertion es)
insertion-IsSorted [] = tt
insertion-IsSorted (e ∷ es) = place-IsSorted e (insertion es) (insertion-IsSorted es)

AtLeast-at :
    (a : NoteAmount) (es : List Entry) (j : ℕ) → AtLeast a es → j < length es → a ≤ amount_at es j
AtLeast-at a [] j h lt = absurd (omega arith)
AtLeast-at a (e ∷ es) zero h lt = h.0
AtLeast-at a (e ∷ es) (suc j) h lt = AtLeast-at a es j h.1 (omega arith)

IsSorted-Ascending : (es : List Entry) → IsSorted es → Ascending es
IsSorted-Ascending [] h i j le lt = absurd (omega arith)
IsSorted-Ascending (e ∷ es) h zero zero le lt = omega arith
IsSorted-Ascending (e ∷ es) h zero (suc j) le lt = AtLeast-at e.1 es j h.0 (omega arith)
IsSorted-Ascending (e ∷ es) h (suc i) zero le lt = absurd (omega arith)
IsSorted-Ascending (e ∷ es) h (suc i) (suc j) le lt =
    IsSorted-Ascending es h.1 i j (omega arith) (omega arith)

pub insertion-IsSort : IsSort insertion
insertion-IsSort = record {
  rearranged = insertion-Perm;
  ascending = λ es. IsSorted-Ascending (insertion es) (insertion-IsSorted es);
}
