-- ===== src/Planner/Session/Complete.antt =====
-- A session over a plan, from its first step to its end.
use paymage.Base.{
  ℕ, zero, suc, ◌+◌, ◌==◌, ◌≡◌, ◌≤◌, true, false, Option, none, some, List, [], ◌∷◌, length,
  get_elem?, All, Distinct, Elem, arith, refl, ap, Bool-cases, inl, inr,
}
use mathlib.Core.Option.{some-injective}
use paymage.Host.Outcome.{ok}
use paymage.Host.Interface.{U256}
use paymage.Planner.Amounts.{NoteAmount}
use paymage.Planner.Plan.Defs.{SpendableNote, PlannedStep, from_spendable, find_note, resolve}
use paymage.Planner.Plan.Chain.{Chain, AreAt}
use paymage.Planner.Plan.Correct.{IsPlan}
use paymage.Planner.Session.Defs.{SpendSession, commitments, remove_spent, retain}
use paymage.Planner.Session.Wallet.{Apart, resolve_known, resolve_one, resolve_two}
use paymage.Planner.Session.Progress.{
  IsPayable, after, IsSuffix, IsSuffix-tail, merges, Known, Known-retain, Finishes, one_step,
  nothing_left,
}
use paymage.Planner.Session.Finish.{
  AreFresh, AreFresh-retain, Apart-retain, IsReady, later-Finishes,
}

Elem-commitments :
    (w : List SpendableNote) (i : ℕ) (n : SpendableNote)
    → get_elem? w i ≡ some n
    → Elem n.commitment (commitments w)
Elem-commitments [] i n h = cc
Elem-commitments (x ∷ xs) zero n h =
    let e : x ≡ n = some-injective x n h in inl (ap (λ y. y.commitment) e)
Elem-commitments (x ∷ xs) (suc i) n h = inr (Elem-commitments xs i n h)

find_note-Distinct :
    (w : List SpendableNote) (i : ℕ) (n : SpendableNote)
    → Distinct (commitments w)
    → get_elem? w i ≡ some n
    → find_note n.commitment w ≡ some n
find_note-Distinct [] i n d h = cc
find_note-Distinct (x ∷ xs) zero n d h =
    let e : x ≡ n = some-injective x n h in
    let same : (x.commitment == n.commitment) ≡ true = rw e (ground arith) in rw same (ap some e)
find_note-Distinct (x ∷ xs) (suc i) n d h =
    let in_tail = Elem-commitments xs i n h in
    let other : (x.commitment == n.commitment) ≡ false =
      elim (Bool-cases (x.commitment == n.commitment)) [
        | inl same ↦
            let e : x.commitment ≡ n.commitment = ground arith in absurd (d.0 (rw e in_tail))
        | inr other ↦ other
      ] in
    rw other (find_note-Distinct xs i n d.1 h)

-- The notes at two indices have two commitments.
apart_at :
    (w : List SpendableNote) (i j : ℕ) (n m : SpendableNote)
    → Distinct (commitments w)
    → get_elem? w i ≡ some n
    → get_elem? w j ≡ some m
    → n.commitment ≡ m.commitment
    → i ≡ j
apart_at [] i j n m d h k e = cc
apart_at (x ∷ xs) zero zero n m d h k e = refl
apart_at (x ∷ xs) zero (suc j) n m d h k e =
    let q : x ≡ n = some-injective x n h in
    absurd (d.0 (rw (ap (λ y. y.commitment) q, e) (Elem-commitments xs j m k)))
apart_at (x ∷ xs) (suc i) zero n m d h k e =
    let q : x ≡ m = some-injective x m k in
    absurd (d.0 (rw (ap (λ y. y.commitment) q, ← e) (Elem-commitments xs i n h)))
apart_at (x ∷ xs) (suc i) (suc j) n m d h k e = ap suc (apart_at xs i j n m d.1 h k e)

module _ (w : List SpendableNote) (distinct : Distinct (commitments w)) where
  AreAt-Known : (is : List ℕ) (ns : List SpendableNote) → AreAt w is ns → Known w ns
  AreAt-Known [] [] h = tt
  AreAt-Known [] (n ∷ ns) h = elim h [ ]
  AreAt-Known (i ∷ is) [] h = elim h [ ]
  AreAt-Known (i ∷ is) (n ∷ ns) h = (find_note-Distinct w i n distinct h.0, AreAt-Known is ns h.1)

  AreAt-out :
      (is : List ℕ) (ns : List SpendableNote) (i : ℕ) (n : SpendableNote)
      → AreAt w is ns
      → get_elem? w i ≡ some n
      → ¬ Elem i is
      → ¬ Elem n.commitment (commitments ns)
  AreAt-out [] [] i n h at out k = k
  AreAt-out [] (m ∷ ms) i n h at out k = elim h [ ]
  AreAt-out (j ∷ js) [] i n h at out k = elim h [ ]
  AreAt-out (j ∷ js) (m ∷ ms) i n h at out (inl e) =
      out (inl (apart_at w j i m n distinct h.0 at e))
  AreAt-out (j ∷ js) (m ∷ ms) i n h at out (inr k) = AreAt-out js ms i n h.1 at (λ e. out (inr e)) k

  AreAt-Distinct :
      (is : List ℕ) (ns : List SpendableNote)
      → AreAt w is ns
      → Distinct is
      → Distinct (commitments ns)
  AreAt-Distinct [] [] h d = tt
  AreAt-Distinct [] (n ∷ ns) h d = elim h [ ]
  AreAt-Distinct (i ∷ is) [] h d = elim h [ ]
  AreAt-Distinct (i ∷ is) (n ∷ ns) h d =
      (AreAt-out is ns i n h.1 h.0 d.0, AreAt-Distinct is ns h.1 d.1)

resolve_first :
    (w : List SpendableNote) (note n : SpendableNote) (next : PlannedStep)
    → next.inputs ≡ (from_spendable note, some (from_spendable n))
    → find_note note.commitment w ≡ some note
    → find_note n.commitment w ≡ some n
    → resolve next w tt ≡ ok (note ∷ n ∷ []) tt
resolve_first w note n next inputs h k =
    resolve_two next w (from_spendable note) (from_spendable n) note n inputs
      (resolve_known w note (some (from_spendable n)) h)
      (resolve_known w n (some (from_spendable note)) k)

module _ (amount : NoteAmount) (change : Option NoteAmount) where
  first-Finishes :
      (ns : List SpendableNote) (note : SpendableNote) (steps : List PlannedStep)
      (outs : List (U256 × U256)) (s : SpendSession)
      → Chain amount change (from_spendable note) ns steps
      → Known s.wallet (note ∷ ns)
      → Distinct (commitments (note ∷ ns))
      → IsSuffix s.steps s.step_index steps
      → AreFresh outs s.wallet
      → All (λ x. Apart x s.wallet) (merges note.amount ns)
      → IsPayable s.target amount
      → length steps ≤ length outs
      → Finishes outs s (remove_spent s.wallet (note ∷ ns)) (length steps)
  first-Finishes ns note [] outs s chain known d suffix fresh apart payable enough =
      elim (none_left ns chain) [ ]
    where
      none_left : (ns : List SpendableNote) → Chain amount change (from_spendable note) ns [] → ⊥
      none_left ns h = h
  first-Finishes ns note (next ∷ rest) [] s chain known d suffix fresh apart payable enough =
      absurd (omega arith)
  first-Finishes [] note (next ∷ rest) (out ∷ outs) s (inputs, action, over) known d suffix fresh
        apart payable enough =
      let found =
        resolve_one next s.wallet (from_spendable note) note inputs
          (resolve_known s.wallet note none known.0) in
      one_step s next rest (note ∷ []) out outs (retain note.commitment s.wallet) (length rest)
        suffix found (rw action payable)
        (rw over (
          nothing_left (after s next (note ∷ []) out.0) outs (retain note.commitment s.wallet)
            (rw over at (IsSuffix-tail s.steps s.step_index next rest suffix)) (rw action refl)))
  first-Finishes (n ∷ []) note (next ∷ rest) (out ∷ outs) s (inputs, action, over) known d suffix
        fresh apart payable enough =
      let found = resolve_first s.wallet note n next inputs known.0 known.1.0 in
      one_step s next rest (note ∷ n ∷ []) out outs (remove_spent s.wallet (note ∷ n ∷ []))
        (length rest) suffix found (rw action payable)
        (rw over (
          nothing_left (after s next (note ∷ n ∷ []) out.0) outs
            (remove_spent s.wallet (note ∷ n ∷ []))
            (rw over at (IsSuffix-tail s.steps s.step_index next rest suffix)) (rw action refl)))
  first-Finishes (n ∷ x ∷ xs) note (next ∷ rest) (out ∷ outs) s (inputs, action, chain) known d
        suffix fresh apart payable enough =
      let w' = retain note.commitment s.wallet in
      let kept = retain n.commitment w' in
      let m : SpendableNote = record { commitment = out.0; amount = note.amount + n.amount } in
      let found = resolve_first s.wallet note n next inputs known.0 known.1.0 in
      let s' = after s next (note ∷ n ∷ []) out.0 in
      let known' : Known w' (n ∷ x ∷ xs) =
        Known-retain s.wallet note.commitment (n ∷ x ∷ xs) known.1 d.0 in
      let apart' : All (λ a. Apart a kept) (merges note.amount (n ∷ x ∷ xs)) =
        Apart-retain n.commitment (merges note.amount (n ∷ x ∷ xs)) w'
          (Apart-retain note.commitment (merges note.amount (n ∷ x ∷ xs)) s.wallet apart) in
      let fresh' : AreFresh (out ∷ outs) kept =
        AreFresh-retain n.commitment (out ∷ outs) w'
          (AreFresh-retain note.commitment (out ∷ outs) s.wallet fresh) in
      let ready : IsReady kept m (x ∷ xs) outs = record {
        new = fresh'.0;
        apart = apart'.0;
        merges_apart = apart'.1;
        known = Known-retain w' n.commitment (x ∷ xs) known'.1 d.1.0;
        distinct = d.1.1;
        fresh = fresh'.1;
      } in
      one_step s next rest (note ∷ n ∷ []) out outs (remove_spent s.wallet (note ∷ n ∷ x ∷ xs))
        (length rest) suffix found (rw action tt)
        (later-Finishes amount change xs x kept m rest outs s' chain (rw action refl) ready
          (IsSuffix-tail s.steps s.step_index next rest suffix) payable (omega (arith, enough)))

-- The chosen notes of a plan.
abbrev pub chosen :
    {wallet : List SpendableNote} {amount : NoteAmount} {steps : List PlannedStep}
    → IsPlan wallet amount steps
    → List SpendableNote
chosen p = p.note ∷ p.run.merged

-- The loop over a session's plan reaches its end, with as many transactions as the plan has steps,
-- and leaves in the wallet every note but the chosen ones: if the wallet's commitments are all
-- different, the results of the transactions bring new commitments, there are enough of them, no
-- note of the wallet has the amount of a merged note, and a withdrawal's amount is an i128.
pub execute_plan-Finishes :
    (s : SpendSession) (amount : NoteAmount) (p : IsPlan s.wallet amount s.steps)
    (outs : List (U256 × U256))
    → s.step_index ≡ 0
    → Distinct (commitments s.wallet)
    → AreFresh outs s.wallet
    → length s.steps ≤ length outs
    → All (λ x. Apart x s.wallet) (merges p.note.amount p.run.merged)
    → IsPayable s.target amount
    → Finishes outs s (remove_spent s.wallet (chosen p)) (length s.steps)
execute_plan-Finishes s amount p outs start distinct fresh enough apart payable =
    let at : AreAt s.wallet (p.first ∷ p.rest) (chosen p) = (p.at_first, p.run.taken) in
    first-Finishes amount p.change p.run.merged p.note s.steps outs s p.run.chain
      (AreAt-Known s.wallet distinct (p.first ∷ p.rest) (chosen p) at)
      (AreAt-Distinct s.wallet distinct (p.first ∷ p.rest) (chosen p) at p.choice.distinct)
      (rw start (record {
        measured = omega arith;
        elements = λ j. let e : 0 + j ≡ j = omega arith in rw e refl;
      }))
      fresh apart payable enough
