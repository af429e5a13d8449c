-- ===== src/Payroll/Contract/Invariant.antt =====
-- The contract's invariant, and that every step keeps it.
use paymage.Base.{
  ℕ, zero, suc, ◌+◌, ◌≡◌, Bool, true, some, List, [], ◌∷◌, Elem, Distinct, is_some, ltb, leb, ◌&&◌,
  inl, inr, ◌⊎◌, arith, ◌==◌, Map, insert, Bool-cases, ◌∙◌, length,
}
use paymage.Host.Outcome.{ok}
use paymage.Host.Interface.{Address, U256, Bytes, Groth16Proof, Host, Auth}
use paymage.Payroll.State.{World, PayrollPeriod}
use paymage.Payroll.Admin.{constructor}
use paymage.Payroll.Run.Checks.{Batch, period_of}
use paymage.Payroll.Run.Phases.{with_period}
use paymage.Payroll.Run.Effect.{Ran, IsRun}
use paymage.Payroll.Withdraw.Defs.{spent, is_true}
use paymage.Payroll.Withdraw.Effect.{Withdrawn}
use paymage.Payroll.Contract.Defs.{blank, Step, Reach, deployed, next, nullifiers, runs}
use paymage.Payroll.Contract.Frame.{IsQuiet, Effect, quiet, ran, withdrew, Step-Effect}

abbrev pub count_down : ℕ → List ℕ
count_down zero = []
count_down (suc n) = suc n ∷ count_down n

pub count_down-add_one : (n : ℕ) → count_down (n + 1) ≡ (n + 1) ∷ count_down n
count_down-add_one n = let e : n + 1 ≡ suc n = omega arith in rw e

abbrev pub in_range : ℕ → ℕ → Bool
in_range n k = ltb 0 n && leb n k

-- The spent nullifiers after `k` is marked in `m`, whatever `P` holds of those before.
spent_cases :
    {P : Type 0} (m : Map Bool) (k n : ℕ)
    → (is_true (m n) ≡ true → P)
    → is_true (insert k true m n) ≡ true
    → (k ≡ n) ⊎ P
spent_cases m k n old e = elim (Bool-cases (k == n)) [
  | inl same ↦ inl (ground arith)
  | inr other ↦ inr (old (ground arith))
]

published_cases :
    {P : Type 0} (m : Map Bool) (k n : ℕ)
    → (P → is_true (m n) ≡ true)
    → (k ≡ n) ⊎ P
    → is_true (insert k true m n) ≡ true
published_cases m k n old (inl same) = ground arith
published_cases m k n old (inr p) = ground (arith, old p)

module _ {L : Type 0} where
  pub record WellFormed (w : World L) : Type 0 where
    pub counter : runs w.events ≡ count_down (period_of w.store)
    pub periods : (n : ℕ) → is_some (w.store.period n) ≡ in_range n (period_of w.store)
    pub roots :
        (r n : ℕ)
        → w.store.root_to_period r ≡ some n
        → (p : PayrollPeriod) × (w.store.period n ≡ some p) × (p.commitment_root ≡ r)
    pub once : Distinct (nullifiers w.events)
    pub spent_published : (n : ℕ) → spent w.store n ≡ true → Elem n (nullifiers w.events)
    pub published_spent : (n : ℕ) → Elem n (nullifiers w.events) → spent w.store n ≡ true

  deployed-WellFormed :
      (l : L) (a t v r c : ℕ) (w : World L)
      → constructor a t v r c (blank l) ≡ ok tt w
      → WellFormed w
  unfolding constructor
  deployed-WellFormed l a t v r c w h = record {
    counter = ground arith;
    periods = λ n. ground arith;
    roots = λ r n e. ground arith;
    once = ground arith;
    spent_published = λ n e. ground arith;
    published_spent = λ n e. ground arith;
  }

  quiet-WellFormed : {w w' : World L} → WellFormed w → IsQuiet w w' → WellFormed w'
  quiet-WellFormed {w} {w'} f q = record {
    counter = q.same_runs ∙ (rw q.same_counter f.counter);
    periods = λ n. rw (q.same_period, q.same_counter) (f.periods n);
    roots = λ r n. rw (q.same_root, q.same_period) (f.roots r n);
    once = rw q.same_nullifiers f.once;
    spent_published = λ n. rw (q.same_nullifier, q.same_nullifiers) (f.spent_published n);
    published_spent = λ n. rw (q.same_nullifier, q.same_nullifiers) (f.published_spent n);
  }

  module _ (host : Host L) (auth : Auth) (proof : Groth16Proof) (inputs : List U256) where
    -- The roots after a run: the batch's root leads to the new period, the others where they led.
    run_roots :
        {w w' : World L} {b : Batch} {new a v t : ℕ} {l : L} (cids : List (U256 × Bytes))
        → WellFormed w
        → IsRun host auth proof inputs cids w w' b new a v t l
        → (r n : ℕ) → insert b.employee_root new w.store.root_to_period r ≡ some n
        → (p : PayrollPeriod) × ((with_period new b (length cids) w).store.period n ≡ some p)
          × (p.commitment_root ≡ r)
    run_roots {w} {b = b} {new = new} cids f h r n e = elim (Bool-cases (b.employee_root == r)) [
      | inl same ↦ (
        record {
          commitment_root = b.employee_root;
          total_amount = b.total_payroll_amount;
          employee_count = length cids;
          proof_verified = true;
        },
        ground arith,
        ground arith,
      )
      | inr other ↦
          let (p, found, root) = f.roots r n (ground arith) in
          (p, ground (arith, f.periods n, h.next), root)
    ]

    run-WellFormed :
        {w w' : World L} (cids : List (U256 × Bytes))
        → WellFormed w
        → Ran host auth proof inputs cids w w'
        → WellFormed w'
    run-WellFormed {w} {w'} cids f (b, new, a, v, t, l, h) = rw h.after (record {
      counter = ground (arith, f.counter, h.next, count_down-add_one (period_of w.store));
      periods = λ n. ground (arith, f.periods n, h.next);
      roots = run_roots cids f h;
      once = f.once;
      spent_published = f.spent_published;
      published_spent = f.published_spent;
    })

    withdraw-WellFormed :
        {w w' : World L} (recipient : Address)
        → WellFormed w
        → Withdrawn host auth proof inputs recipient w w'
        → WellFormed w'
    withdraw-WellFormed {w} {w'} recipient f (c, p, v, t, l, h) = rw h.after (record {
      counter = f.counter;
      periods = f.periods;
      roots = f.roots;
      once = ((λ e. ground (arith, f.published_spent c.nullifier e, h.fresh)), f.once);
      spent_published =
          λ n e. spent_cases w.store.withdrawn_nullifier c.nullifier n (f.spent_published n) e;
      published_spent =
          λ n e. published_cases w.store.withdrawn_nullifier c.nullifier n (f.published_spent n) e;
    })

  pub Step-WellFormed :
      {host : Host L} {w w' : World L} → WellFormed w → Step host w w' → WellFormed w'
  Step-WellFormed {host} f st = go f (Step-Effect st)
    where
      go : {w w' : World L} → WellFormed w → Effect host w w' → WellFormed w'
      go f (quiet q) = quiet-WellFormed f q
      go f (ran auth proof inputs cids r) = run-WellFormed host auth proof inputs cids f r
      go f (withdrew auth proof inputs recipient r) =
          withdraw-WellFormed host auth proof inputs recipient f r

  -- Every world that the contract reaches is well formed.
  pub Reach-WellFormed : {host : Host L} {w : World L} → Reach host w → WellFormed w
  Reach-WellFormed (deployed {w = w} l a t v r c h) = deployed-WellFormed l a t v r c w h
  Reach-WellFormed (next r s) = Step-WellFormed (Reach-WellFormed r) s
