-- ===== src/Pool/Transact/Settle.antt =====
-- What a successful `transact` changes: the leaves, the roots, the nullifiers, the tokens and the
-- events.
use paymage.Base.{
  ℕ, suc, ◌+◌, ◌%◌, ◌^◌, ◌≡◌, Bool, true, some, List, [], ◌∷◌, ◌++◌, length, Map, arith, leb,
  Bool-cases, inl, inr,
}
use paymage.Host.Outcome.{ok, >>=-elim, trap_unless}
use paymage.Host.Interface.{Address, U256, Auth}
use paymage.Poseidon.{Permutes, InField}
use paymage.Merkle.Spec.{root_of}
use paymage.Pool.Tree.Correct.{IsTree, insert_two_leaves-IsTree, insert_two_leaves-full}
use paymage.Pool.State.{Proof, ExtData, Event, World, Env, get_token}
use paymage.Pool.Transact.Defs.{
  spend_nullifiers, deposit, pay_recipient, validate, insert_commitments, internal_transact,
  transact,
}
use paymage.Pool.Transact.Phases.{
  spend_nullifiers_lem, Deposits, Pays, WithinLimit, deposit_lem, pay_recipient_lem, mark_all,
  publish_all,
}
use paymage.Pool.Transact.Effect.{IsPool, IsValidated, validate-IsValidated}

module _ {L : Type 0} (env : Env L) (is_perm : Permutes env.perm) where
  -- The two commitments are the next two leaves, and are published with their indices.
  pub record Inserted (leaves older : List U256) (k cur : ℕ) (p : Proof) (e : ExtData)
      (w w' : World L) : Type 0 where
    pub grown :
        IsTree env.perm is_perm
          (leaves ++ p.output_commitment0 ∷ p.output_commitment1 ∷ [])
          (root_of env.perm (suc k) leaves ∷ older)
          k
          ((cur + 1) % 90)
          w'.tree
    pub after : w' ≡ record w {
      tree = w'.tree;
      events =
          Event.new_commitment p.output_commitment1 (length leaves + 1) e.encrypted_output1
          ∷ Event.new_commitment p.output_commitment0 (length leaves) e.encrypted_output0
          ∷ w.events;
    }

  insert_commitments_lem :
      (leaves older : List U256) (k cur : ℕ) (p : Proof) (e : ExtData) (w w' : World L)
      → IsTree env.perm is_perm leaves older k cur w.tree
      → InField p.output_commitment0
      → InField p.output_commitment1
      → insert_commitments env p e w ≡ ok tt w'
      → Inserted leaves older k cur p e w w'
  unfolding insert_commitments
  insert_commitments_lem leaves older k cur p e w w' tree in0 in1 h =
      elim (Bool-cases (leb (length leaves + 2) (2 ^ suc k))) [
        | inl room ↦
            let (t, runs, grown) =
              insert_two_leaves-IsTree env.perm is_perm leaves older k cur w.tree
                p.output_commitment0 p.output_commitment1 tree in0 in1 (ground arith) in
            let same : w'.tree ≡ t = ground (arith, runs) in
            record { grown = rw same grown; after = ground (arith, runs) }
        | inr full ↦
            let refused =
              insert_two_leaves-full env.perm is_perm leaves older k cur w.tree p.output_commitment0
                p.output_commitment1 tree in0 in1 (ground arith) in
            absurd (ground (arith, refused))
      ]

  get_token_lem :
      (w w' : World L) (a : Address) → get_token w ≡ ok a w' → (w' ≡ w) × (w.store.token ≡ some a)
  unfolding get_token
  get_token_lem w w' a h = ground arith

  -- Everything that a successful transaction has checked and changed: `token` is the token in use
  -- and `mid` the ledger between the deposit and the withdrawal.
  pub record IsTransacted (auth : Auth) (leaves older : List U256) (k cur : ℕ) (nulls : Map Bool)
      (p : Proof) (e : ExtData) (sender : Address) (w w' : World L)
      (token verifier member non_member : Address) (mid : L) : Type 0 where
    pub authorised : auth sender ≡ true
    pub token_set : w.store.token ≡ some token
    pub within : WithinLimit env e.ext_amount w
    pub validated : IsValidated env is_perm leaves older k nulls p e w verifier member non_member
    pub deposited : Deposits env token sender e.ext_amount w.ledger mid
    pub paid : Pays env token e.recipient e.ext_amount mid w'.ledger
    pub still_pool :
        IsPool env.perm is_perm
          (leaves ++ p.output_commitment0 ∷ p.output_commitment1 ∷ [])
          (root_of env.perm (suc k) leaves ∷ older)
          k
          ((cur + 1) % 90)
          (mark_all p.input_nullifiers nulls)
          w'
    pub same_store :
        w'.store ≡ record (w.store) { nullifiers = some (mark_all p.input_nullifiers nulls) }
    pub published :
        w'.events
        ≡ Event.new_commitment p.output_commitment1 (length leaves + 1) e.encrypted_output1
          ∷ Event.new_commitment p.output_commitment0 (length leaves) e.encrypted_output0
          ∷ publish_all p.input_nullifiers w.events

  -- A transaction that succeeds, in a pool whose tree holds these leaves and roots and whose
  -- stored nullifiers are these, was authorised by the sender, had its root among the recent ones
  -- and no input nullifier marked, passed every check of the hash, amount, association roots and
  -- proof, moved the deposit in and the withdrawal out, marked its nullifiers, and appended its two
  -- commitments to the leaves, whose Merkle root is the new current root; the rest of the storage
  -- is unchanged.
  pub transact-IsTransacted :
      (auth : Auth) (leaves older : List U256) (k cur : ℕ) (nulls : Map Bool) (p : Proof)
      (e : ExtData) (sender : Address) (w w' : World L)
      → IsPool env.perm is_perm leaves older k cur nulls w
      → transact env auth p e sender w ≡ ok tt w'
      → (token : Address) × (verifier : Address) × (member : Address) × (non_member : Address)
        × (mid : L) × IsTransacted auth leaves older k cur nulls p e sender w w' token verifier
            member non_member mid
  unfolding transact internal_transact
  transact-IsTransacted auth leaves older k cur nulls p e sender w w' pool h =
      >>=-elim (trap_unless (auth sender)) _ h λ _ w₁ e₁ h₁.
        >>=-elim get_token _ h₁ λ token w₂ e₂ h₂.
          >>=-elim (deposit env token sender e.ext_amount) _ h₂ λ _ w₃ e₃ h₃.
            >>=-elim (validate env p e) _ h₃ λ _ w₄ e₄ h₄.
              >>=-elim (spend_nullifiers p.input_nullifiers) _ h₄ λ _ w₅ e₅ h₅.
                >>=-elim get_token _ h₅ λ token' w₆ e₆ h₆.
                  >>=-elim (pay_recipient env token' e.recipient e.ext_amount) _ h₆ λ _ w₇ e₇ h₇.
                    let (same₂, token_set) = get_token_lem w₁ w₂ token e₂ in
                    let (same₆, token_set') = get_token_lem w₅ w₆ token' e₆ in
                    let (same₃, deposits, within) =
                      deposit_lem env token sender e.ext_amount w₂ w₃ e₃ in
                    let (same₄, v, a, b, valid) =
                      validate-IsValidated env is_perm leaves older k cur nulls p e w₃ w₄
                        (ground arith) e₄ in
                    let spent =
                      spend_nullifiers_lem p.input_nullifiers nulls w₄
                        (ground (arith, pool.nulls_set)) in
                    let (same₇, pays) =
                      pay_recipient_lem env token' e.recipient e.ext_amount w₆ w₇ e₇ in
                    let same_tree : w₇.tree ≡ w.tree = ground arith in
                    let tree₇ : IsTree env.perm is_perm leaves older k cur w₇.tree =
                      rw same_tree pool.is_tree in
                    let inserted =
                      insert_commitments_lem leaves older k cur p e w₇ w' tree₇
                        valid.verified.canonical.commitment0_in
                        valid.verified.canonical.commitment1_in h₇ in
                    (
                      token,
                      v,
                      a,
                      b,
                      w₃.ledger,
                      record {
                        authorised = ground arith;
                        token_set = ground arith;
                        within = ground (arith, within);
                        validated = ground (arith, valid);
                        deposited = ground (arith, deposits);
                        paid = ground (arith, pays, inserted.after);
                        still_pool = record {
                          is_tree = inserted.grown;
                          nulls_set = ground (arith, inserted.after);
                        };
                        same_store = ground (arith, inserted.after);
                        published = ground (arith, inserted.after);
                      },
                    )
