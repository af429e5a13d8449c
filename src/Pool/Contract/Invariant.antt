-- ===== src/Pool/Contract/Invariant.antt =====
-- The pool's invariant, and that every step keeps it.
use paymage.Base.{
  ℕ, suc, ◌+◌, ◌-◌, ◌%◌, ◌≡◌, Bool, true, ◌||◌, ◌==◌, List, [], ◌∷◌, ◌++◌, elem, Map, insert, empty,
  arith, ap, refl, ltb, Bool-cases, inl, inr, ◌∙◌,
}
use paymage.Host.Outcome.{ok}
use paymage.Host.Interface.{Address, U256, Auth}
use paymage.Poseidon.{Permutes, IsZeroTable}
use paymage.Merkle.Spec.{root_of}
use paymage.Pool.Tree.Defs.{init}
use paymage.Pool.Tree.Init.{blank_tree, init-IsTree, init-wrong_levels}
use paymage.Pool.State.{Proof, ExtData, Event, World, Env}
use paymage.Pool.Admin.{constructor, update_admin, update_asp_membership, update_asp_non_membership}
use paymage.Pool.Transact.Defs.{is_marked}
use paymage.Pool.Transact.Phases.{mark_all, publish_all}
use paymage.Pool.Transact.Effect.{IsPool}
use paymage.Pool.Transact.Settle.{transact-IsTransacted}
use paymage.Pool.Contract.Defs.{
  Call, execute, blank, Step, invoke, elsewhere, Reach, deployed, next, commitments, nullifiers,
}

append-append : (xs : List U256) (a b : U256) → (xs ++ a ∷ []) ++ b ∷ [] ≡ xs ++ a ∷ b ∷ []
append-append [] a b = refl
append-append (x ∷ xs) a b = ap (x ∷◌) (append-append xs a b)

commitments-publish_all :
    (ns : List U256) (es : List Event) → commitments (publish_all ns es) ≡ commitments es
commitments-publish_all [] es = refl
commitments-publish_all (n ∷ ns) es = commitments-publish_all ns (Event.new_nullifier n ∷ es)

-- The nullifiers that are marked are those published.
abbrev pub Agree : Map Bool → List Event → Type 0
Agree m es = (n : ℕ) → is_marked m n ≡ elem n (nullifiers es)

insert-Agree :
    (x n : ℕ) (m : Map Bool) (ns : List U256)
    → is_marked m n ≡ elem n ns
    → is_marked (insert x true m) n ≡ elem n (x ∷ ns)
insert-Agree x n m ns h = elim (Bool-cases (x == n)) [
  | inl same ↦ ground arith
  | inr other ↦ ground arith
]

mark_all-Agree :
    (ns : List U256) (m : Map Bool) (es : List Event)
    → Agree m es
    → Agree (mark_all ns m) (publish_all ns es)
mark_all-Agree [] m es h = h
mark_all-Agree (x ∷ xs) m es h =
    mark_all-Agree xs (insert x true m) (Event.new_nullifier x ∷ es)
      λ n. insert-Agree x n m (nullifiers es) (h n)

module _ {L : Type 0} (perm : U256 → U256 → U256) (is_perm : Permutes perm) where
  -- The leaves are the commitments published, and the nullifiers marked are those published.
  pub record WellFormed (older : List U256) (k cur : ℕ) (nulls : Map Bool) (w : World L)
      : Type 0 where
    pub pool : IsPool perm is_perm (commitments w.events) older k cur nulls w
    pub marked : Agree nulls w.events

  abbrev pub Holds : World L → Type 0
  Holds w =
      (older : List U256) × (k : ℕ) × (cur : ℕ) × (nulls : Map Bool) × WellFormed older k cur nulls
        w

  deployed-Holds :
      (table : IsZeroTable perm) (l : L) (admin token verifier member non_member max levels : ℕ)
      (w : World L)
      → constructor admin token verifier member non_member max levels (blank l) ≡ ok tt w
      → Holds w
  unfolding constructor
  deployed-Holds table l admin token verifier member non_member max levels w h =
      elim (Bool-cases (levels == 0 || ltb 32 levels)) [
        | inl bad ↦ absurd (ground (arith, init-wrong_levels levels blank_tree bad))
        | inr good ↦
            let (t, runs, is_tree) = init-IsTree perm is_perm table (levels - 1) (ground arith) in
            let same : suc (levels - 1) ≡ levels = ground arith in
            let runs' : init levels blank_tree ≡ ok tt t = rw same at runs in
            let same_tree : w.tree ≡ t = ground (arith, runs') in
            let no_events : w.events ≡ [] = ground (arith, runs') in
            (
              [],
              levels - 1,
              0,
              empty,
              record {
                pool = record {
                  is_tree = rw (same_tree, no_events) is_tree;
                  nulls_set = ground (arith, runs');
                };
                marked = λ n. ground arith;
              },
            )
      ]

  transact-Holds :
      (env : Env L) (auth : Auth) (p : Proof) (e : ExtData) (sender : Address) (w w' : World L)
      → Holds w
      → execute (record env { perm = perm }) auth (Call.transact p e sender) w ≡ ok tt w'
      → Holds w'
  unfolding execute
  transact-Holds env auth p e sender w w' (older, k, cur, nulls, f) h =
      let leaves = commitments w.events in
      let (token, v, a, b, mid, r) =
        transact-IsTransacted (record env { perm = perm }) is_perm auth leaves older k cur nulls p e
          sender w w' f.pool h in
      let grown : commitments w'.events
          ≡ leaves ++ p.output_commitment0 ∷ p.output_commitment1 ∷ [] =
        rw (r.published, commitments-publish_all p.input_nullifiers w.events)
          (append-append leaves p.output_commitment0 p.output_commitment1) in
      (
        root_of perm (suc k) leaves ∷ older,
        k,
        (cur + 1) % 90,
        mark_all p.input_nullifiers nulls,
        record {
          pool = rw grown r.still_pool;
          marked = rw r.published (mark_all-Agree p.input_nullifiers nulls w.events f.marked);
        },
      )

  -- A step that leaves the tree, the events and the nullifiers alone.
  quiet-Holds :
      {w w' : World L}
      → Holds w
      → (w'.tree ≡ w.tree) × (w'.events ≡ w.events) × (w'.store.nullifiers ≡ w.store.nullifiers)
      → Holds w'
  quiet-Holds (older, k, cur, nulls, f) (same_tree, same_events, same_nulls) = (
    older,
    k,
    cur,
    nulls,
    record {
      pool = record {
        is_tree = rw (same_tree, same_events) f.pool.is_tree;
        nulls_set = same_nulls ∙ f.pool.nulls_set;
      };
      marked = rw same_events f.marked;
    },
  )

  Step-Holds : {w w' : World L} → Holds w → Step perm w w' → Holds w'
  unfolding execute update_admin update_asp_membership update_asp_non_membership
  Step-Holds {w} {w'} f (invoke env auth (Call.transact p e sender) h) =
      transact-Holds env auth p e sender w w' f h
  Step-Holds {w} {w'} f (elsewhere l e) = quiet-Holds f (ground arith)
  Step-Holds {w} {w'} f (invoke env auth (Call.update_admin a) h) = quiet-Holds f (ground arith)
  Step-Holds {w} {w'} f (invoke env auth (Call.update_asp_membership a) h) =
      quiet-Holds f (ground arith)
  Step-Holds {w} {w'} f (invoke env auth (Call.update_asp_non_membership a) h) =
      quiet-Holds f (ground arith)

  -- Every world that the pool reaches is well formed.
  pub Reach-Holds : IsZeroTable perm → {w : World L} → Reach perm w → Holds w
  Reach-Holds table (deployed {w = w} l a t v m n x k h) = deployed-Holds table l a t v m n x k w h
  Reach-Holds table (next r s) = Step-Holds (Reach-Holds table r) s
