-- ===== src/Planner/Combination/Choice.antt =====
-- Choices of notes from a wallet: no note twice, and the sum of their amounts.
use paymage.Base.{
  ℕ, zero, suc, ◌+◌, ◌≡◌, ◌<◌, ◌≤◌, some, List, [], ◌∷◌, length, get_elem?, get_or, All, Elem,
  Distinct, arith, refl, ap, ◌⊎◌, inl, inr, sym, sum, ◌∙◌, Perm, nil, keep, swap, trans, ltb,
  Bool-cases,
}
use paymage.Planner.Amounts.{NoteAmount}
use paymage.Planner.Combination.Defs.{Entry}
use paymage.Planner.Combination.Search.{push, pop, enumerate, below}

abbrev pub sum_at : List NoteAmount → List ℕ → NoteAmount
sum_at values [] = 0
sum_at values (i ∷ is) = get_or values i 0 + sum_at values is

abbrev pub indices : List Entry → List ℕ
indices [] = []
indices (e ∷ es) = e.0 ∷ indices es

abbrev pub amounts : List Entry → List NoteAmount
amounts [] = []
amounts (e ∷ es) = e.1 ∷ amounts es

module _ (values : List NoteAmount) where
  -- Different notes of the wallet, whose amounts sum to the total.
  pub record IsChoice (path : List ℕ) (total : NoteAmount) : Type 0 where
    pub distinct : Distinct path
    pub in_range : All (λ i. i < length values) path
    pub sums : sum_at values path ≡ total

  -- A note of the wallet, with its index.
  abbrev pub IsEntry : Entry → Type 0
  IsEntry e = get_elem? values e.0 ≡ some e.1

pub get_elem?-get_or :
    (xs : List ℕ) (i x : ℕ) → get_elem? xs i ≡ some x → (i < length xs) × (get_or xs i 0 ≡ x)
get_elem?-get_or [] i x h = cc
get_elem?-get_or (y ∷ ys) zero x h = (omega arith, ground arith)
get_elem?-get_or (y ∷ ys) (suc i) x h = let (lt, e) = get_elem?-get_or ys i x h in (omega arith, e)

pub pop-push : (i : ℕ) (path : List ℕ) → pop (push i path) ≡ path
unfolding pop
pop-push i [] = refl
pop-push i (x ∷ []) = refl
pop-push i (x ∷ y ∷ ys) = ap (x ∷◌) (pop-push i (y ∷ ys))

Elem-push : (a i : ℕ) (path : List ℕ) → Elem a (push i path) → Elem a path ⊎ (i ≡ a)
Elem-push a i [] (inl e) = inr e
Elem-push a i [] (inr h) = elim h [ ]
Elem-push a i (x ∷ xs) (inl e) = inl (inl e)
Elem-push a i (x ∷ xs) (inr h) = elim (Elem-push a i xs h) [ inl l ↦ inl (inr l) | inr r ↦ inr r ]

Distinct-push : (i : ℕ) (path : List ℕ) → Distinct path → ¬ Elem i path → Distinct (push i path)
Distinct-push i [] d n = ((λ h. elim h [ ]), tt)
Distinct-push i (x ∷ xs) d n = (
  (λ h. elim (Elem-push x i xs h) [ inl l ↦ d.0 l | inr r ↦ n (inl (sym r)) ]),
  Distinct-push i xs d.1 (λ h. n (inr h)),
)

All-push : (P : ℕ → Type 0) (i : ℕ) (path : List ℕ) → All P path → P i → All P (push i path)
All-push P i [] h p = (p, tt)
All-push P i (x ∷ xs) h p = (h.0, All-push P i xs h.1 p)

sum_at-push :
    (values path : List ℕ) (i : ℕ)
    → sum_at values (push i path) ≡ sum_at values path + get_or values i 0
sum_at-push values [] i = omega arith
sum_at-push values (x ∷ xs) i = omega (arith, sum_at-push values xs i)

module _ (values : List NoteAmount) where
  -- A path that sums so far to `sum`, and candidates that it has not taken.
  pub record Searching (path : List ℕ) (sum : NoteAmount) (cs : List Entry) : Type 0 where
    pub choice : IsChoice values path sum
    pub entries : All (IsEntry values) cs
    pub distinct : Distinct (indices cs)
    pub apart : (a : ℕ) → Elem a path → Elem a (indices cs) → ⊥

  pub Searching-without :
      (path : List ℕ) (sum : NoteAmount) (c : Entry) (cs : List Entry)
      → Searching path sum (c ∷ cs)
      → Searching path sum cs
  Searching-without path sum c cs s = record {
    choice = s.choice;
    entries = s.entries.1;
    distinct = s.distinct.1;
    apart = λ a h k. s.apart a h (inr k);
  }

  pub Searching-push :
      (path : List ℕ) (sum : NoteAmount) (c : Entry) (cs : List Entry)
      → Searching path sum (c ∷ cs)
      → Searching (push c.0 path) (sum + c.1) cs
  Searching-push path sum c cs s =
      let (lt, e) = get_elem?-get_or values c.0 c.1 s.entries.0 in
      record {
        choice = record {
          distinct = Distinct-push c.0 path s.choice.distinct λ h. s.apart c.0 h (inl refl);
          in_range = All-push (λ i. i < length values) c.0 path s.choice.in_range lt;
          sums = omega (arith, sum_at-push values path c.0, s.choice.sums);
        };
        entries = s.entries.1;
        distinct = s.distinct.1;
        apart = λ a h k. elim (Elem-push a c.0 path h) [
          | inl old ↦ s.apart a old (inr k)
          | inr now ↦ s.distinct.0 (rw now k)
        ];
      }

  pub Searching-start :
      (cs : List Entry) → All (IsEntry values) cs → Distinct (indices cs) → Searching [] 0 cs
  Searching-start cs e d = record {
    choice = record { distinct = tt; in_range = tt; sums = refl };
    entries = e;
    distinct = d;
    apart = λ a h k. elim h [ ];
  }

pub indices-Perm : {xs ys : List Entry} → Perm xs ys → Perm (indices xs) (indices ys)
indices-Perm nil = nil
indices-Perm (keep x p) = keep x.0 (indices-Perm p)
indices-Perm (swap x y xs) = swap x.0 y.0 (indices xs)
indices-Perm (trans p q) = trans (indices-Perm p) (indices-Perm q)

pub amounts-Perm : {xs ys : List Entry} → Perm xs ys → Perm (amounts xs) (amounts ys)
amounts-Perm nil = nil
amounts-Perm (keep x p) = keep x.1 (amounts-Perm p)
amounts-Perm (swap x y xs) = swap x.1 y.1 (amounts xs)
amounts-Perm (trans p q) = trans (amounts-Perm p) (amounts-Perm q)

-- The notes below the goal are some of the notes.
pub All-below :
    (P : Entry → Type 0) (goal : NoteAmount) (s : List Entry) → All P s → All P (below goal s)
unfolding below
All-below P goal [] h = tt
All-below P goal (e ∷ es) h = elim (Bool-cases (ltb e.1 goal)) [
  | inl less ↦ rw less (h.0, All-below P goal es h.1)
  | inr more ↦ rw more (All-below P goal es h.1)
]

Elem-below :
    (a : ℕ) (goal : NoteAmount) (s : List Entry)
    → Elem a (indices (below goal s))
    → Elem a (indices s)
unfolding below
Elem-below a goal [] h = h
Elem-below a goal (e ∷ es) h = elim (Bool-cases (ltb e.1 goal)) [
  | inl less ↦ elim (rw less at h) [ inl i ↦ inl i | inr r ↦ inr (Elem-below a goal es r) ]
  | inr more ↦ inr (Elem-below a goal es (rw more at h))
]

pub Distinct-below :
    (goal : NoteAmount) (s : List Entry) → Distinct (indices s) → Distinct (indices (below goal s))
unfolding below
Distinct-below goal [] h = tt
Distinct-below goal (e ∷ es) h = elim (Bool-cases (ltb e.1 goal)) [
  | inl less ↦ rw less ((λ i. h.0 (Elem-below e.0 goal es i)), Distinct-below goal es h.1)
  | inr more ↦ rw more (Distinct-below goal es h.1)
]

-- Numbering the amounts gives the wallet's entries, each index once.
pub enumerate-IsEntry :
    (values xs : List NoteAmount) (i : ℕ)
    → ((j : ℕ) → get_elem? values (i + j) ≡ get_elem? xs j)
    → All (IsEntry values) (enumerate i xs)
unfolding enumerate
enumerate-IsEntry values [] i h = tt
enumerate-IsEntry values (x ∷ xs) i h =
    let here : i ≡ i + 0 = omega arith in
    (
      ap (get_elem? values) here ∙ h 0,
      enumerate-IsEntry values xs (suc i) (λ j.
          let next : suc i + j ≡ i + suc j = omega arith in ap (get_elem? values) next ∙ h (suc j)),
    )

Elem-enumerate : (a i : ℕ) (xs : List NoteAmount) → Elem a (indices (enumerate i xs)) → i ≤ a
unfolding enumerate
Elem-enumerate a i [] h = elim h [ ]
Elem-enumerate a i (x ∷ xs) (inl e) = omega arith
Elem-enumerate a i (x ∷ xs) (inr h) = omega (arith, Elem-enumerate a (suc i) xs h)

pub enumerate-Distinct : (i : ℕ) (xs : List NoteAmount) → Distinct (indices (enumerate i xs))
unfolding enumerate
enumerate-Distinct i [] = tt
enumerate-Distinct i (x ∷ xs) =
    ((λ h. absurd (omega (arith, Elem-enumerate i (suc i) xs h))), enumerate-Distinct (suc i) xs)

pub amounts-enumerate : (i : ℕ) (xs : List NoteAmount) → amounts (enumerate i xs) ≡ xs
unfolding enumerate
amounts-enumerate i [] = refl
amounts-enumerate i (x ∷ xs) = ap (x ∷◌) (amounts-enumerate (suc i) xs)
