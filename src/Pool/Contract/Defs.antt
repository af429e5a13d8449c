-- ===== src/Pool/Contract/Defs.antt =====
-- The entry points of the pool that write, as calls, and the worlds that invocations reach. An
-- invocation that fails is rolled back by the host, so it is no step. What an invocation reads of
-- other contracts may differ from one to the next; the permutation of the hash does not.
use paymage.Base.{ℕ, ◌≡◌, none, List, [], ◌∷◌, ◌++◌}
use paymage.Host.Outcome.{⊤, ok}
use paymage.Host.Interface.{Address, U256, Auth}
use paymage.Pool.State.{Proof, ExtData, Event, World, Env, M}
use paymage.Pool.Tree.Init.{blank_tree}
use paymage.Pool.Admin
use paymage.Pool.Transact.Defs

pub data Call : Type 0 where
  transact : (proof : Proof) (ext_data : ExtData) (sender : Address) → Call
  update_admin : (new_admin : Address) → Call
  update_asp_membership : (new_asp_membership : Address) → Call
  update_asp_non_membership : (new_asp_non_membership : Address) → Call

module _ {L : Type 0} where
  unfoldable pub execute : Env L → Auth → Call → M L ⊤
  execute env auth (transact proof ext_data sender) = Defs.transact env auth proof ext_data sender
  execute env auth (update_admin new_admin) = Admin.update_admin auth new_admin
  execute env auth (update_asp_membership new_asp) = Admin.update_asp_membership auth new_asp
  execute env auth (update_asp_non_membership new_asp) =
      Admin.update_asp_non_membership auth new_asp

  -- The world before the contract is deployed.
  abbrev pub blank : L → World L
  blank l = record {
    store = record {
      admin = none;
      token = none;
      verifier = none;
      maximum_deposit_amount = none;
      nullifiers = none;
      asp_membership = none;
      asp_non_membership = none;
    };
    tree = blank_tree;
    ledger = l;
    events = [];
  }

  pub data Step (perm : U256 → U256 → U256) : World L → World L → Type 0 where
    invoke :
        {w w' : World L} (env : Env L) (auth : Auth) (call : Call)
        → execute (record env { perm = perm }) auth call w ≡ ok tt w'
        → Step perm w w'
    elsewhere : {w w' : World L} (l : L) → w' ≡ record w { ledger = l } → Step perm w w'

  pub data Reach (perm : U256 → U256 → U256) : World L → Type 0 where
    deployed :
        {w : World L} (l : L) (admin token verifier member non_member max levels : ℕ)
        → Admin.constructor admin token verifier member non_member max levels (blank l) ≡ ok tt w
        → Reach perm w
    next : {w w' : World L} → Reach perm w → Step perm w w' → Reach perm w'

-- The commitments published, oldest first.
abbrev pub commitments : List Event → List U256
commitments [] = []
commitments (Event.new_commitment c i e ∷ es) = commitments es ++ c ∷ []
commitments (Event.new_nullifier n ∷ es) = commitments es

-- The nullifiers published, newest first.
abbrev pub nullifiers : List Event → List U256
nullifiers [] = []
nullifiers (Event.new_commitment c i e ∷ es) = nullifiers es
nullifiers (Event.new_nullifier n ∷ es) = n ∷ nullifiers es
