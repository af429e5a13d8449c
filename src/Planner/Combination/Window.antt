-- ===== src/Planner/Combination/Window.antt =====
-- Pairs of the sorted notes, and what the scan for two notes knows of those outside its window.
use paymage.Base.{
  ℕ, ◌+◌, ◌≡◌, ◌<◌, ◌≤◌, ltb, Option, none, some, List, length, get_elem?, arith, ◌⊎◌, inl, inr,
  Bool-cases, if◌then◌else◌,
}
use paymage.Planner.Amounts.{NoteAmount}
use paymage.Planner.Combination.Defs.{Entry, TwoScan, Best, improves, two_result}

abbrev pub amount_of : Option Entry → NoteAmount
amount_of none = 0
amount_of (some e) = e.1

abbrev pub amount_at : List Entry → ℕ → NoteAmount
amount_at s i = amount_of (get_elem? s i)

abbrev pub Ascending : List Entry → Type 0
Ascending s = (i j : ℕ) → i ≤ j → j < length s → amount_at s i ≤ amount_at s j

-- Entries `i` and `j` of the wallet stand at two positions, and their amounts sum to `total`.
pub record IsPair (s : List Entry) (i j total : ℕ) (a b x y : ℕ) : Type 0 where
  pub ordered : a < b
  pub first : get_elem? s a ≡ some (i, x)
  pub second : get_elem? s b ≡ some (j, y)
  pub sums : x + y ≡ total

abbrev pub Pair : List Entry → ℕ → ℕ → ℕ → Type 0
Pair s i j total = (a : ℕ) × (b : ℕ) × (x : ℕ) × (y : ℕ) × IsPair s i j total a b x y

-- Every pair of positions sums to less than the goal, or to at least `least`.
abbrev pub NoneBetween : List Entry → NoteAmount → NoteAmount → Type 0
NoneBetween s goal least =
    (a b : ℕ)
    → a < b
    → b < length s
    → (amount_at s a + amount_at s b < goal) ⊎ (least ≤ amount_at s a + amount_at s b)

-- What a scan has to say of the pairs.
abbrev pub IsBestPair : List Entry → NoteAmount → TwoScan → Type 0
IsBestPair s goal (TwoScan.exact i j) = Pair s i j goal
IsBestPair s goal (TwoScan.overshoot i j excess) =
    (0 < excess) × Pair s i j (goal + excess) × NoneBetween s goal (goal + excess)
IsBestPair s goal TwoScan.miss =
    (a b : ℕ) → a < b → b < length s → amount_at s a + amount_at s b < goal

-- A sum that is short of the goal, or that overshoots it no less than the best one.
abbrev pub Beaten : Option Best → NoteAmount → NoteAmount → Type 0
Beaten none goal t = t < goal
Beaten (some b) goal t = (t < goal) ⊎ (goal + b.excess ≤ t)

abbrev pub IsSoundBest : List Entry → NoteAmount → Option Best → Type 0
IsSoundBest s goal none = Unit
IsSoundBest s goal (some b) = (0 < b.excess) × Pair s b.first b.second (goal + b.excess)

pub done :
    (s : List Entry) (goal : NoteAmount) (best : Option Best)
    → IsSoundBest s goal best
    → ((a b : ℕ) → a < b → b < length s → Beaten best goal (amount_at s a + amount_at s b))
    → IsBestPair s goal (two_result best)
done s goal none sound all = all
done s goal (some b) sound all = (sound.0, sound.1, all)

-- The pairs that the loop has passed over: those that reach out of the window.
abbrev pub Passed : List Entry → NoteAmount → ℕ → ℕ → Option Best → Type 0
Passed s goal gap left best =
    (a b : ℕ)
    → a < b
    → b < length s
    → (a < left) ⊎ (left + gap < b)
    → Beaten best goal (amount_at s a + amount_at s b)

pub Beaten-short : (best : Option Best) (goal t : NoteAmount) → t < goal → Beaten best goal t
Beaten-short none goal t h = h
Beaten-short (some b) goal t h = inl h

-- The best overshoot after one by `d`, found at the entries `i` and `j`.
abbrev pub after : ℕ → ℕ → NoteAmount → Option Best → Option Best
after i j d best =
    if improves d best then some (record { first = i; second = j; excess = d }) else best

pub Beaten-after :
    (i j d : ℕ) (best : Option Best) (goal t : NoteAmount)
    → Beaten best goal t
    → Beaten (after i j d best) goal t
Beaten-after i j d none goal t h = inl h
Beaten-after i j d (some b) goal t h = elim (Bool-cases (ltb d b.excess)) [
  | inl less ↦ rw less (ground arith)
  | inr more ↦ rw more h
]

pub Beaten-over :
    (i j d : ℕ) (best : Option Best) (goal t : NoteAmount)
    → goal + d ≤ t
    → Beaten (after i j d best) goal t
Beaten-over i j d none goal t h = inr h
Beaten-over i j d (some b) goal t h = elim (Bool-cases (ltb d b.excess)) [
  | inl less ↦ rw less (inr h)
  | inr more ↦ rw more (inr (ground arith))
]

pub IsSoundBest-after :
    (s : List Entry) (i j d : ℕ) (best : Option Best) (goal : NoteAmount)
    → 0 < d
    → Pair s i j (goal + d)
    → IsSoundBest s goal best
    → IsSoundBest s goal (after i j d best)
IsSoundBest-after s i j d none goal positive pair sound = (positive, pair)
IsSoundBest-after s i j d (some b) goal positive pair sound = elim (Bool-cases (ltb d b.excess)) [
  | inl less ↦ rw less (positive, pair)
  | inr more ↦ rw more sound
]
