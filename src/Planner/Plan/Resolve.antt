-- ===== src/Planner/Plan/Resolve.antt =====
-- What `resolve` finds: notes of the wallet with the amounts of the step's inputs.
use paymage.Base.{
  ℕ, suc, ◌==◌, ◌&&◌, not, ◌≡◌, false, Option, none, some, List, [], ◌∷◌, get_elem?, All, sum,
  arith, refl, ap, Bool-cases, inl, inr,
}
use mathlib.Core.Option.{some-injective}
use paymage.Host.Outcome.{ok, ok_or, pure, ◌>>=◌, ◌>>◌, fail_if, >>=-elim}
use paymage.Host.Interface.{U256}
use paymage.Planner.Amounts.{NoteAmount}
use paymage.Planner.Errors.{PlanError, Fallible}
use paymage.Planner.Plan.Defs.{
  SpendableNote, StepNote, PlannedStep, amounts_of, find_note, is_excluded, matches, commitment_of,
  known_note, only_match, resolve_input_note, resolve,
}
use paymage.Planner.Plan.Chain.{input_sum}

abbrev pub Held : List SpendableNote → SpendableNote → Type 0
Held wallet n = (i : ℕ) × (get_elem? wallet i ≡ some n)

Held-cons :
    (x : SpendableNote) (wallet : List SpendableNote) (n : SpendableNote)
    → Held wallet n
    → Held (x ∷ wallet) n
Held-cons x wallet n (i, e) = (suc i, e)

pub find_note_lem :
    (c : U256) (wallet : List SpendableNote) (n : SpendableNote)
    → find_note c wallet ≡ some n
    → Held wallet n × (n.commitment ≡ c)
find_note_lem c [] n h = cc
find_note_lem c (x ∷ xs) n h = elim (Bool-cases (x.commitment == c)) [
  | inl here ↦
      let e : x ≡ n = some-injective x n (rw here at h) in ((0, ap some e), rw (← e) (ground arith))
  | inr there ↦ let (held, q) = find_note_lem c xs n (rw there at h) in (Held-cons x xs n held, q)
]

matches_lem :
    (amount : NoteAmount) (excluded : Option U256) (wallet : List SpendableNote)
    → All
        (λ n. Held wallet n × (n.amount ≡ amount) × (is_excluded excluded n.commitment ≡ false))
        (matches amount excluded wallet)
matches_lem amount excluded [] = tt
matches_lem amount excluded (x ∷ xs) =
    let rest = lift (matches amount excluded xs) (matches_lem amount excluded xs) in
    elim (Bool-cases ((x.amount == amount) && not (is_excluded excluded x.commitment))) [
      | inl here ↦ rw here (((0, refl), ground arith, ground arith), rest)
      | inr there ↦ rw there rest
    ]
  where
    lift :
        (ns : List SpendableNote)
        → All
            (λ n. Held xs n × (n.amount ≡ amount) × (is_excluded excluded n.commitment ≡ false))
            ns
        → All
            (λ n.
              Held (x ∷ xs) n × (n.amount ≡ amount) × (is_excluded excluded n.commitment ≡ false))
            ns
    lift [] h = tt
    lift (n ∷ ns) h = ((Held-cons x xs n h.0.0, h.0.1, h.0.2), lift ns h.1)

-- A note that an input may stand for.
pub record Stands (wallet : List SpendableNote) (input : StepNote) (n : SpendableNote)
    : Type 0 where
  pub held : Held wallet n
  pub same_amount : n.amount ≡ input.amount
  pub named : (c : U256) → input.commitment ≡ some c → n.commitment ≡ c

module _ (wallet : List SpendableNote) where
  pub resolve_input_note_lem :
      (input : StepNote) (sibling : Option StepNote) (n : SpendableNote)
      → resolve_input_note input wallet sibling tt ≡ ok n tt
      → Stands wallet input n
  unfolding resolve_input_note
  resolve_input_note_lem input sibling n h = go input.commitment refl h
    where
      known :
          (c : U256) (x : SpendableNote)
          → find_note c wallet ≡ some x
          → input.commitment ≡ some c
          → (fail_if
                  (not (x.amount == input.amount))
                  (PlanError.note_amount_mismatch c x.amount input.amount)
                >> pure x)
              tt
            ≡ ok n tt
          → Stands wallet input n
      known c x f e h =
          let (held, q) = find_note_lem c wallet x f in
          let same : x ≡ n = ground arith in
          let eq : x.amount ≡ input.amount = ground arith in
          rw (← same) (record {
            held = held;
            same_amount = eq;
            named = λ d k. let cd : c ≡ d = some-injective c d (rw e at k) in rw (← cd) q;
          })

      only :
          (ns : List SpendableNote)
          → All
              (λ m.
                Held wallet m
                × (m.amount ≡ input.amount)
                × (is_excluded (commitment_of sibling) m.commitment ≡ false))
              ns
          → input.commitment ≡ none
          → only_match input.amount ns tt ≡ ok n tt
          → Stands wallet input n
      only [] a e h = cc
      only (m ∷ []) a e h =
          let same : m ≡ n = ground arith in
          rw (← same) (record { held = a.0.0; same_amount = a.0.1; named = λ d k. cc })
      only (m ∷ o ∷ ms) a e h = cc

      find :
          (c : U256) (o : Option SpendableNote)
          → find_note c wallet ≡ o
          → input.commitment ≡ some c
          → (ok_or o (PlanError.commitment_not_found c) >>= λ note.
                fail_if
                  (not (note.amount == input.amount))
                  (PlanError.note_amount_mismatch c note.amount input.amount)
                >> pure note)
              tt
            ≡ ok n tt
          → Stands wallet input n
      find c none f e h = cc
      find c (some x) f e h = known c x f e h

      go :
          (o : Option U256)
          → input.commitment ≡ o
          → (elim o as (λ _. Fallible SpendableNote) [
            | some commitment ↦ known_note commitment input.amount wallet
            | none ↦ only_match input.amount (matches input.amount (commitment_of sibling) wallet)
          ])
              tt
            ≡ ok n tt
          → Stands wallet input n
      go (some c) e h = find c (find_note c wallet) refl e h
      go none e h =
          only (matches input.amount (commitment_of sibling) wallet)
            (matches_lem input.amount (commitment_of sibling) wallet) e h

  -- The notes that a step resolves to.
  pub record IsResolved (step : PlannedStep) (notes : List SpendableNote) : Type 0 where
    pub held : All (Held wallet) notes
    pub sums : sum (amounts_of notes) ≡ input_sum step

  pub resolve-IsResolved :
      (step : PlannedStep) (notes : List SpendableNote)
      → resolve step wallet tt ≡ ok notes tt
      → IsResolved step notes
  unfolding resolve
  resolve-IsResolved step notes h =
      >>=-elim (resolve_input_note step.inputs.0 wallet step.inputs.1) _ h λ first u e h'.
        rest first (resolve_input_note_lem step.inputs.0 step.inputs.1 first e) step.inputs.1 refl
          h'
    where
      rest :
          (first : SpendableNote)
          → Stands wallet step.inputs.0 first
          → (o : Option StepNote) → step.inputs.1 ≡ o
          → (elim o as (λ _. Fallible (List SpendableNote)) [
            | none ↦ pure (first ∷ [])
            | some input ↦ do
              second ← resolve_input_note input wallet (some step.inputs.0)
              pure (first ∷ second ∷ [])
          ])
              tt
            ≡ ok notes tt
          → IsResolved step notes
      rest first s none e h =
          let same : notes ≡ first ∷ [] = ground arith in
          rw same (record { held = (s.held, tt); sums = rw e (omega (arith, s.same_amount)) })
      rest first s (some input) e h =
          >>=-elim (resolve_input_note input wallet (some step.inputs.0)) _ h λ second u e₂ h₂.
            let s₂ = resolve_input_note_lem input (some step.inputs.0) second e₂ in
            let same : notes ≡ first ∷ second ∷ [] = ground arith in
            rw same (record {
              held = (s.held, (s₂.held, tt));
              sums = rw e (omega (arith, s.same_amount, s₂.same_amount));
            })
