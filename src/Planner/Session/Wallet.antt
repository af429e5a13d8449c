-- ===== src/Planner/Session/Wallet.antt =====
-- The wallet of a session between its steps: which notes are found in it.
use paymage.Base.{
  zero, suc, ◌==◌, ◌&&◌, not, ◌≡◌, ◌≢◌, true, false, Option, none, some, List, [], ◌∷◌, ◌++◌, All,
  arith, refl, ap, ◌∙◌, Bool-cases, inl, inr,
}
use mathlib.Core.List.{append-nil}
use paymage.Host.Outcome.{ok, >>=-ok}
use paymage.Host.Interface.{U256}
use paymage.Planner.Amounts.{NoteAmount}
use paymage.Planner.Plan.Defs.{
  SpendableNote, StepNote, PlannedStep, from_spendable, from_amount, find_note, is_excluded,
  matches, commitment_of, resolve_input_note, resolve,
}
use paymage.Planner.Plan.Resolve.{Held, find_note_lem}
use paymage.Planner.Session.Defs.{retain, remove_spent}

abbrev pub Absent : U256 → List SpendableNote → Type 0
Absent c notes = All (λ n. n.commitment ≢ c) notes

-- No note has the amount.
abbrev pub Apart : NoteAmount → List SpendableNote → Type 0
Apart x notes = All (λ n. n.amount ≢ x) notes

pub All-retain :
    (P : SpendableNote → Type 0) (c : U256) (notes : List SpendableNote)
    → All P notes
    → All P (retain c notes)
All-retain P c [] h = tt
All-retain P c (n ∷ ns) h = elim (Bool-cases (n.commitment == c)) [
  | inl same ↦ rw same (All-retain P c ns h.1)
  | inr other ↦ rw other (h.0, All-retain P c ns h.1)
]

pub retain-Absent :
    (c : U256) (notes : List SpendableNote) → Absent c notes → retain c notes ≡ notes
retain-Absent c [] h = refl
retain-Absent c (n ∷ ns) h =
    let other : (n.commitment == c) ≡ false = ground (arith, h.0) in
    rw other (ap (n ∷◌) (retain-Absent c ns h.1))

pub retain-append :
    (c : U256) (xs ys : List SpendableNote) → retain c (xs ++ ys) ≡ retain c xs ++ retain c ys
retain-append c [] ys = refl
retain-append c (x ∷ xs) ys = elim (Bool-cases (x.commitment == c)) [
  | inl same ↦ rw same (retain-append c xs ys)
  | inr other ↦ rw other (ap (x ∷◌) (retain-append c xs ys))
]

pub find_note-retain :
    (c d : U256) (notes : List SpendableNote)
    → c ≢ d
    → find_note c (retain d notes) ≡ find_note c notes
find_note-retain c d [] h = refl
find_note-retain c d (n ∷ ns) h =
    let rest = find_note-retain c d ns h in
    elim (Bool-cases (n.commitment == d)) [
      | inl same ↦ let other : (n.commitment == c) ≡ false = ground arith in rw (same, other) rest
      | inr kept ↦ elim (Bool-cases (n.commitment == c)) [
        | inl here ↦ rw (kept, here) refl
        | inr there ↦ rw (kept, there) rest
      ]
    ]

pub find_note-append :
    (c : U256) (xs ys : List SpendableNote) (n : SpendableNote)
    → find_note c xs ≡ some n
    → find_note c (xs ++ ys) ≡ some n
find_note-append c [] ys n h = cc
find_note-append c (x ∷ xs) ys n h = elim (Bool-cases (x.commitment == c)) [
  | inl here ↦ rw here (rw here at h)
  | inr there ↦ rw there (find_note-append c xs ys n (rw there at h))
]

pub matches-Apart :
    (x : NoteAmount) (excluded : Option U256) (xs ys : List SpendableNote)
    → Apart x xs
    → matches x excluded (xs ++ ys) ≡ matches x excluded ys
matches-Apart x excluded [] ys h = refl
matches-Apart x excluded (n ∷ ns) ys h =
    let other : ((n.amount == x) && not (is_excluded excluded n.commitment)) ≡ false =
      ground (arith, h.0) in
    rw other (matches-Apart x excluded ns ys h.1)

All-Held :
    (P : SpendableNote → Type 0) (notes : List SpendableNote) (n : SpendableNote)
    → All P notes
    → Held notes n
    → P n
All-Held P [] n h (i, e) = cc
All-Held P (x ∷ xs) n h (zero, e) = let q : x ≡ n = ground arith in rw (← q) h.0
All-Held P (x ∷ xs) n h (suc i, e) = All-Held P xs n h.1 (i, e)

pub All-find :
    (P : SpendableNote → Type 0) (notes : List SpendableNote) (c : U256) (n : SpendableNote)
    → All P notes
    → find_note c notes ≡ some n
    → P n
All-find P notes c n h e = All-Held P notes n h (find_note_lem c notes n e).0

-- A note of the wallet resolves to itself.
pub resolve_known :
    (wallet : List SpendableNote) (n : SpendableNote) (sibling : Option StepNote)
    → find_note n.commitment wallet ≡ some n
    → resolve_input_note (from_spendable n) wallet sibling tt ≡ ok n tt
unfolding resolve_input_note
resolve_known wallet n sibling h =
    let same : (n.amount == n.amount) ≡ true = ground arith in rw (h, same) refl

-- A merged note, which stands last, resolves to itself where no other note has its amount.
pub resolve_merged :
    (kept : List SpendableNote) (m : SpendableNote) (sibling : Option StepNote)
    → Apart m.amount kept
    → is_excluded (commitment_of sibling) m.commitment ≡ false
    → resolve_input_note (from_amount m.amount) (kept ++ m ∷ []) sibling tt ≡ ok m tt
unfolding resolve_input_note
resolve_merged kept m sibling apart distinct =
    let same : (m.amount == m.amount) ≡ true = ground arith in
    rw (matches-Apart m.amount (commitment_of sibling) kept (m ∷ []) apart, same, distinct) refl

module _ (step : PlannedStep) (wallet : List SpendableNote) where
  pub resolve_one :
      (p : StepNote) (a : SpendableNote)
      → step.inputs ≡ (p, none)
      → resolve_input_note p wallet none tt ≡ ok a tt
      → resolve step wallet tt ≡ ok (a ∷ []) tt
  unfolding resolve
  resolve_one p a e ea = rw e (>>=-ok (resolve_input_note p wallet none) _ ea)

  pub resolve_two :
      (p q : StepNote) (a b : SpendableNote)
      → step.inputs ≡ (p, some q)
      → resolve_input_note p wallet (some q) tt ≡ ok a tt
      → resolve_input_note q wallet (some p) tt ≡ ok b tt
      → resolve step wallet tt ≡ ok (a ∷ b ∷ []) tt
  unfolding resolve
  resolve_two p q a b e ea eb =
      let eb' : resolve_input_note q wallet (some step.inputs.0) tt ≡ ok b tt = rw e eb in
      rw e (
        >>=-ok (resolve_input_note p wallet (some q)) _ ea
        ∙ >>=-ok (resolve_input_note q wallet (some step.inputs.0)) _ eb')

-- What is left when the merged note and one more are spent.
pub remove_spent-merged :
    (kept : List SpendableNote) (m n : SpendableNote)
    → Absent m.commitment kept
    → remove_spent (kept ++ m ∷ []) (m ∷ n ∷ []) ≡ retain n.commitment kept
remove_spent-merged kept m n absent =
    let same : (m.commitment == m.commitment) ≡ true = ground arith in
    let e : retain m.commitment (kept ++ m ∷ []) ≡ kept ++ [] =
      rw (retain-append m.commitment kept (m ∷ []), same, retain-Absent m.commitment kept absent)
        refl in
    ap (retain n.commitment) (e ∙ append-nil kept)
