-- ===== src/Pool/Contract/Safety.antt =====
-- What holds of every world that the pool reaches, and who may change what.
use paymage.Base.{
  ℕ, suc, ◌≡◌, ◌≢◌, true, false, some, Option, List, [], ◌∷◌, Elem, All, elem, Elem→elem, arith,
  refl, inl, inr,
}
use paymage.Host.Outcome.{ok}
use paymage.Host.Interface.{Address, U256, Auth}
use paymage.Poseidon.{Permutes, IsZeroTable}
use paymage.Merkle.Spec.{root_of}
use paymage.Pool.Tree.History.{get_last_root_lem}
use paymage.Pool.State.{Proof, ExtData, World, Env}
use paymage.Pool.Admin.{get_root, update_admin, update_asp_membership, update_asp_non_membership}
use paymage.Pool.Transact.Defs.{is_spent, transact, is_marked}
use paymage.Pool.Transact.Settle.{transact-IsTransacted}
use paymage.Pool.Contract.Defs.{Call, execute, Reach, commitments, nullifiers}
use paymage.Pool.Contract.Invariant.{Reach-Holds}

All-Elem : (P : ℕ → Type 0) (xs : List ℕ) (x : ℕ) → All P xs → Elem x xs → P x
All-Elem P [] x h e = elim e [ ]
All-Elem P (y ∷ ys) x (p, ps) (inl e) = rw (← e) p
All-Elem P (y ∷ ys) x (p, ps) (inr e) = All-Elem P ys x ps e

module _ {L : Type 0} (perm : U256 → U256 → U256) (is_perm : Permutes perm)
    (table : IsZeroTable perm) where
  -- In every world that the pool reaches, the root it reports is the Merkle root of all the
  -- commitments that it has published, in their order, in a tree of its number of levels.
  pub Reach-get_root :
      {w : World L}
      → Reach perm w
      → (k : ℕ) × (w.tree.levels ≡ some (suc k))
        × (get_root w ≡ ok (root_of perm (suc k) (commitments w.events)) w)
  unfolding get_root
  Reach-get_root {w} r =
      let (older, k, cur, nulls, f) = Reach-Holds perm is_perm table r in
      let tree = f.pool.is_tree in
      (
        k,
        tree.levels_set,
        ground (
          arith,
          get_last_root_lem older (root_of perm (suc k) (commitments w.events)) cur w.tree
              tree.ring,
        ),
      )

  -- In every world that the pool reaches, a nullifier is spent exactly when it has been published.
  pub Reach-is_spent :
      {w : World L} (n : U256) → Reach perm w → is_spent n w ≡ ok (elem n (nullifiers w.events)) w
  unfolding is_spent
  Reach-is_spent {w} n r =
      let (older, k, cur, nulls, f) = Reach-Holds perm is_perm table r in
      ground (arith, f.pool.nulls_set, f.marked n)

  -- In no world that the pool reaches does a transaction succeed that has an input nullifier which
  -- was published before: no note is spent in two transactions.
  pub transact-no_double_spend :
      (env : Env L) (auth : Auth) (p : Proof) (e : ExtData) (sender : Address) (n : U256)
      {w w' : World L}
      → Reach perm w
      → Elem n p.input_nullifiers
      → Elem n (nullifiers w.events)
      → transact (record env { perm = perm }) auth p e sender w ≢ ok tt w'
  transact-no_double_spend env auth p e sender n {w} {w'} r input published h =
      let (older, k, cur, nulls, f) = Reach-Holds perm is_perm table r in
      let (token, v, a, b, mid, done) =
        transact-IsTransacted (record env { perm = perm }) is_perm auth (commitments w.events) older
          k cur nulls p e sender w w' f.pool h in
      let unspent : is_marked nulls n ≡ false =
        All-Elem (λ n. is_marked nulls n ≡ false) p.input_nullifiers n done.validated.unspent
          input in
      ground (arith, f.marked n, Elem→elem n (nullifiers w.events) published)

-- Who must have authorised a call: the administrator, or for a transaction the sender.
abbrev pub actor : {L : Type 0} → Call → World L → Option Address
actor (Call.transact p e sender) w = some sender
actor call w = w.store.admin

-- A call that succeeds was authorised by its actor.
pub execute-actor :
    {L : Type 0} (env : Env L) (auth : Auth) (call : Call) (w : World L) {w' : World L}
    → execute env auth call w ≡ ok tt w'
    → (a : Address) × (actor call w ≡ some a) × (auth a ≡ true)
unfolding execute update_admin update_asp_membership update_asp_non_membership transact
execute-actor env auth (Call.transact p e sender) w h = (sender, refl, ground arith)
execute-actor env auth (Call.update_admin a) w h = ground arith
execute-actor env auth (Call.update_asp_membership a) w h = ground arith
execute-actor env auth (Call.update_asp_non_membership a) w h = ground arith
