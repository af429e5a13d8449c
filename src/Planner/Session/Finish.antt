-- ===== src/Planner/Session/Finish.antt =====
-- The loop of a session, from the first merged note to the end of the plan.
use paymage.Base.{
  ◌+◌, ◌≡◌, ◌≢◌, ◌≤◌, Option, some, List, [], ◌∷◌, ◌++◌, length, All, Distinct, arith, ap,
}
use paymage.Host.Outcome.{ok}
use paymage.Host.Interface.{U256}
use paymage.Planner.Amounts.{NoteAmount}
use paymage.Planner.Plan.Defs.{SpendableNote, PlannedStep, from_spendable, from_amount, resolve}
use paymage.Planner.Plan.Chain.{Chain}
use paymage.Planner.Session.Defs.{SpendSession, commitments, remove_spent, retain}
use paymage.Planner.Session.Wallet.{
  Absent, Apart, All-retain, find_note-append, All-find, resolve_known, resolve_merged, resolve_two,
  remove_spent-merged,
}
use paymage.Planner.Session.Progress.{
  IsPayable, after, IsSuffix, IsSuffix-tail, merges, Known, Known-retain, Finishes, one_step,
  nothing_left,
}

-- Every result's first commitment is new to the wallet.
abbrev pub AreFresh : List (U256 × U256) → List SpendableNote → Type 0
AreFresh outs wallet = All (λ out. Absent out.0 wallet) outs

pub AreFresh-retain :
    (c : U256) (outs : List (U256 × U256)) (wallet : List SpendableNote)
    → AreFresh outs wallet
    → AreFresh outs (retain c wallet)
AreFresh-retain c [] wallet h = tt
AreFresh-retain c (out ∷ outs) wallet h =
    (All-retain (λ n. n.commitment ≢ out.0) c wallet h.0, AreFresh-retain c outs wallet h.1)

pub Apart-retain :
    (c : U256) (xs : List NoteAmount) (wallet : List SpendableNote)
    → All (λ x. Apart x wallet) xs
    → All (λ x. Apart x (retain c wallet)) xs
Apart-retain c [] wallet h = tt
Apart-retain c (x ∷ xs) wallet h =
    (All-retain (λ n. n.amount ≢ x) c wallet h.0, Apart-retain c xs wallet h.1)

-- The wallet that the next steps find: a merged note, and the notes that they name.
pub record IsReady (kept : List SpendableNote) (m : SpendableNote) (ns : List SpendableNote)
    (outs : List (U256 × U256)) : Type 0 where
  pub new : Absent m.commitment kept
  pub apart : Apart m.amount kept
  pub merges_apart : All (λ x. Apart x kept) (merges m.amount ns)
  pub known : Known kept ns
  pub distinct : Distinct (commitments ns)
  pub fresh : AreFresh outs kept

module _ (amount : NoteAmount) (change : Option NoteAmount) where
  -- The merged note and one more, found in the wallet.
  resolve_pair :
      (next : PlannedStep) (kept : List SpendableNote) (m n : SpendableNote)
      (ns : List SpendableNote) (outs : List (U256 × U256))
      → next.inputs ≡ (from_amount m.amount, some (from_spendable n))
      → IsReady kept m (n ∷ ns) outs
      → resolve next (kept ++ m ∷ []) tt ≡ ok (m ∷ n ∷ []) tt
  resolve_pair next kept m n ns outs inputs ready =
      let other : n.commitment ≢ m.commitment =
        All-find (λ x. x.commitment ≢ m.commitment) kept n.commitment n ready.new ready.known.0 in
      resolve_two next (kept ++ m ∷ []) (from_amount m.amount) (from_spendable n) m n inputs
        (resolve_merged kept m (some (from_spendable n)) ready.apart (ground (arith, other)))
        (resolve_known (kept ++ m ∷ []) n (some (from_amount m.amount))
          (find_note-append n.commitment kept (m ∷ []) n ready.known.0))

  IsReady-next :
      (kept : List SpendableNote) (m n next : SpendableNote) (ns : List SpendableNote)
      (out : U256 × U256) (outs : List (U256 × U256))
      → IsReady kept m (n ∷ next ∷ ns) (out ∷ outs)
      → IsReady
          (retain n.commitment kept)
          (record { commitment = out.0; amount = m.amount + n.amount })
          (next ∷ ns)
          outs
  IsReady-next kept m n next ns out outs ready = record {
    new = All-retain (λ x. x.commitment ≢ out.0) n.commitment kept ready.fresh.0;
    apart = All-retain (λ x. x.amount ≢ m.amount + n.amount) n.commitment kept ready.merges_apart.0;
    merges_apart =
        Apart-retain n.commitment (merges (m.amount + n.amount) (next ∷ ns)) kept
          ready.merges_apart.1;
    known = Known-retain kept n.commitment (next ∷ ns) ready.known.1 ready.distinct.0;
    distinct = ready.distinct.1;
    fresh = AreFresh-retain n.commitment outs kept ready.fresh.1;
  }

  pub later-Finishes :
      (ns : List SpendableNote) (n : SpendableNote) (kept : List SpendableNote) (m : SpendableNote)
      (rest : List PlannedStep) (outs : List (U256 × U256)) (s : SpendSession)
      → Chain amount change (from_amount m.amount) (n ∷ ns) rest
      → s.wallet ≡ kept ++ m ∷ []
      → IsReady kept m (n ∷ ns) outs
      → IsSuffix s.steps s.step_index rest
      → IsPayable s.target amount
      → length rest ≤ length outs
      → Finishes outs s (remove_spent kept (n ∷ ns)) (length rest)
  later-Finishes [] n kept m [] outs s chain e ready suffix payable enough = elim chain [ ]
  later-Finishes (x ∷ xs) n kept m [] outs s chain e ready suffix payable enough = elim chain [ ]
  later-Finishes ns n kept m (next ∷ rest) [] s chain e ready suffix payable enough =
      absurd (omega arith)
  later-Finishes [] n kept m (next ∷ rest) (out ∷ outs) s (inputs, action, over) e ready suffix
        payable enough =
      let found : resolve next s.wallet tt ≡ ok (m ∷ n ∷ []) tt =
        rw e (resolve_pair next kept m n [] (out ∷ outs) inputs ready) in
      let s' = after s next (m ∷ n ∷ []) out.0 in
      let wallet_is : s'.wallet ≡ retain n.commitment kept =
        rw (action, e) (remove_spent-merged kept m n ready.new) in
      one_step s next rest (m ∷ n ∷ []) out outs (retain n.commitment kept) (length rest) suffix
        found (rw action payable)
        (rw over (
          nothing_left s' outs (retain n.commitment kept)
            (rw over at (IsSuffix-tail s.steps s.step_index next rest suffix)) wallet_is))
  later-Finishes (x ∷ xs) n kept m (next ∷ rest) (out ∷ outs) s (inputs, action, chain) e ready
        suffix payable enough =
      let found : resolve next s.wallet tt ≡ ok (m ∷ n ∷ []) tt =
        rw e (resolve_pair next kept m n (x ∷ xs) (out ∷ outs) inputs ready) in
      let s' = after s next (m ∷ n ∷ []) out.0 in
      let m' : SpendableNote = record { commitment = out.0; amount = m.amount + n.amount } in
      let wallet_is : s'.wallet ≡ retain n.commitment kept ++ m' ∷ [] =
        rw (action, e) (ap (λ w. w ++ m' ∷ []) (remove_spent-merged kept m n ready.new)) in
      one_step s next rest (m ∷ n ∷ []) out outs (remove_spent kept (n ∷ x ∷ xs)) (length rest)
        suffix found (rw action tt)
        (later-Finishes xs x (retain n.commitment kept) m' rest outs s' chain wallet_is
          (IsReady-next kept m n x xs out outs ready)
          (IsSuffix-tail s.steps s.step_index next rest suffix) payable (omega (arith, enough)))
