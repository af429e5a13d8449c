-- ===== src/Pool/Transact/Ready.antt =====
-- When a transaction succeeds: the checks of `transact`, passed one after the other.
use paymage.Base.{
  ℕ, ℤ, pos, negsuc, zero, suc, ◌+◌, ◌^◌, ◌≡◌, ◌≤◌, Bool, true, false, some, List, [], ◌∷◌, length,
  All, Map, arith, refl,
}
use paymage.Host.Outcome.{ok}
use paymage.Host.Interface.{Address, U256, Auth, i128_max}
use paymage.Poseidon.{Permutes, InField, bn256_modulus}
use paymage.Merkle.Spec.{root_of}
use paymage.Pool.Tree.History.{is_known_root_lem}
use paymage.Pool.Tree.Correct.{IsTree, insert_two_leaves-IsTree}
use paymage.Pool.State.{Event, Proof, ExtData, World, Env, get_token}
use paymage.Pool.Verify.{validate_nullifiers, validate_bn256_public_inputs, verify_proof}
use paymage.Pool.Amounts.Defs.{calculate_public_amount, i256_to_i128_nonneg}
use paymage.Pool.Transact.Defs.{
  is_marked, check_nullifiers, deposit, pay_recipient, validate, insert_commitments,
  internal_transact, transact,
}
use paymage.Pool.Transact.Phases.{
  IsCanonical, IsVerified, Deposits, Pays, WithinLimit, spend_nullifiers_lem, with_spent,
}
use paymage.Pool.Transact.Effect.{PublicAmount, IsPool, IsValidated}

module _ {L : Type 0} where
  validate_nullifiers-passes :
      (ns : List U256) (w : World L)
      → All InField ns
      → validate_nullifiers ns bn256_modulus w ≡ ok tt w
  unfolding validate_nullifiers
  validate_nullifiers-passes [] w h = ground arith
  validate_nullifiers-passes (n ∷ ns) w h = ground (arith, h.0, validate_nullifiers-passes ns w h.1)

  validate_bn256_public_inputs-passes :
      (p : Proof) (w : World L)
      → IsCanonical p
      → validate_bn256_public_inputs p bn256_modulus w ≡ ok tt w
  unfolding validate_bn256_public_inputs
  validate_bn256_public_inputs-passes p w h =
      ground (arith, validate_nullifiers-passes p.input_nullifiers w h.nullifiers_in)

  check_nullifiers-passes :
      (ns : List U256) (nulls : Map Bool) (w : World L)
      → w.store.nullifiers ≡ some nulls
      → All (λ n. is_marked nulls n ≡ false) ns
      → check_nullifiers ns w ≡ ok tt w
  unfolding check_nullifiers
  check_nullifiers-passes [] nulls w e h = ground arith
  check_nullifiers-passes (n ∷ ns) nulls w e h =
      ground (arith, h.0, check_nullifiers-passes ns nulls w e h.1)

  calculate_public_amount-passes :
      (v : ℤ) (r : U256) (w : World L) → PublicAmount v r → calculate_public_amount v w ≡ ok r w
  unfolding calculate_public_amount
  calculate_public_amount-passes (pos n) r w h = ground arith
  calculate_public_amount-passes (negsuc n) r w h = ground arith

  module _ (env : Env L) where
    verify_proof-passes :
        (p : Proof) (w : World L) (b : Bool) (v : Address)
        → IsVerified env p w b v
        → verify_proof env p w ≡ ok b w
    unfolding verify_proof
    verify_proof-passes p w b v h = ground (
      arith,
      h.verifier_set,
      h.answer,
      h.not_empty,
      validate_bn256_public_inputs-passes p w h.canonical,
    )

    deposit-passes :
        (token sender : Address) (v : ℤ) (w : World L) (mid : L)
        → Deposits env token sender v w.ledger mid
        → WithinLimit env v w
        → deposit env token sender v w ≡ ok tt (record w { ledger = mid })
    unfolding deposit i256_to_i128_nonneg
    deposit-passes token sender (pos zero) w mid d m = ground arith
    deposit-passes token sender (pos (suc n)) w mid d m = ground arith
    deposit-passes token sender (negsuc n) w mid d m = ground arith

    -- A withdrawal that fits an i128.
    abbrev pub Fits128 : ℤ → Type 0
    Fits128 (pos n) = Unit
    Fits128 (negsuc n) = suc n ≤ i128_max

    pay_recipient-passes :
        (token recipient : Address) (v : ℤ) (w : World L) (l : L)
        → Pays env token recipient v w.ledger l
        → Fits128 v
        → pay_recipient env token recipient v w ≡ ok tt (record w { ledger = l })
    unfolding pay_recipient i256_to_i128_nonneg
    pay_recipient-passes token recipient (pos n) w l d m = ground arith
    pay_recipient-passes token recipient (negsuc n) w l d m = ground arith

    validate-passes :
        (is_perm : Permutes env.perm) (leaves older : List U256) (k cur : ℕ) (nulls : Map Bool)
        (p : Proof) (e : ExtData) (w : World L) (v a b : Address)
        → IsPool env.perm is_perm leaves older k cur nulls w
        → IsValidated env is_perm leaves older k nulls p e w v a b
        → validate env p e w ≡ ok tt w
    unfolding validate
    validate-passes is_perm leaves older k cur nulls p e w v a b pool h = ground (
      arith,
      is_known_root_lem (root_of env.perm (suc k) leaves ∷ older) cur w.tree p.root
          pool.is_tree.ring,
      h.root_nonzero,
      h.root_recent,
      check_nullifiers-passes p.input_nullifiers nulls w pool.nulls_set h.unspent,
      h.hash_matches,
      calculate_public_amount-passes e.ext_amount p.public_amount w h.amount_matches,
      h.member_set,
      h.member_root,
      h.non_member_set,
      h.non_member_root,
      verify_proof-passes p w true v h.verified,
    )

    insert_commitments-passes :
        (is_perm : Permutes env.perm) (leaves older : List U256) (k cur : ℕ) (p : Proof)
        (e : ExtData) (w : World L)
        → IsTree env.perm is_perm leaves older k cur w.tree
        → IsCanonical p
        → length leaves + 2 ≤ 2 ^ suc k
        → (w' : World L) × (insert_commitments env p e w ≡ ok tt w') × (w'.ledger ≡ w.ledger)
    unfolding insert_commitments
    insert_commitments-passes is_perm leaves older k cur p e w tree canonical room =
        let (t, runs, grown) =
          insert_two_leaves-IsTree env.perm is_perm leaves older k cur w.tree p.output_commitment0
            p.output_commitment1 tree canonical.commitment0_in canonical.commitment1_in room in
        (
          record w {
            tree = t;
            events =
                Event.new_commitment p.output_commitment1 (length leaves + 1) e.encrypted_output1
                ∷ Event.new_commitment p.output_commitment0 (length leaves) e.encrypted_output0
                ∷ w.events;
          },
          ground (arith, runs),
          refl,
        )

    -- A transaction succeeds if the sender authorised it, every check of the limit, root,
    -- nullifiers, hash, amount, association roots and proof holds, both token transfers that it
    -- asks for succeed within 127 bits, and the tree has room for two leaves. The ledger is then
    -- that after the transfers.
    pub transact-succeeds :
        (is_perm : Permutes env.perm) (auth : Auth) (leaves older : List U256) (k cur : ℕ)
        (nulls : Map Bool) (p : Proof) (e : ExtData) (sender : Address) (w : World L)
        (token v a b : Address) (mid last : L)
        → IsPool env.perm is_perm leaves older k cur nulls w
        → IsValidated env is_perm leaves older k nulls p e w v a b
        → auth sender ≡ true
        → w.store.token ≡ some token
        → WithinLimit env e.ext_amount w
        → Fits128 e.ext_amount
        → Deposits env token sender e.ext_amount w.ledger mid
        → Pays env token e.recipient e.ext_amount mid last
        → length leaves + 2 ≤ 2 ^ suc k
        → (w' : World L) × (transact env auth p e sender w ≡ ok tt w') × (w'.ledger ≡ last)
    unfolding transact internal_transact get_token
    transact-succeeds is_perm auth leaves older k cur nulls p e sender w token v a b mid last pool
          valid may token_set within fits deposits pays room =
        let w₁ : World L = record w { ledger = mid } in
        let pool₁ : IsPool env.perm is_perm leaves older k cur nulls w₁ = record {
          is_tree = pool.is_tree;
          nulls_set = pool.nulls_set;
        } in
        let valid₁ : IsValidated env is_perm leaves older k nulls p e w₁ v a b =
          ground (arith, valid) in
        let w₂ : World L = with_spent p.input_nullifiers nulls w₁ in
        let w₃ : World L = record w₂ { ledger = last } in
        let (w', inserted, same) =
          insert_commitments-passes is_perm leaves older k cur p e w₃ pool.is_tree
            valid.verified.canonical room in
        (
          w',
          ground (
            arith,
            deposit-passes token sender e.ext_amount w mid deposits within,
            validate-passes is_perm leaves older k cur nulls p e w₁ v a b pool₁ valid₁,
            spend_nullifiers_lem p.input_nullifiers nulls w₁ pool.nulls_set,
            pay_recipient-passes token e.recipient e.ext_amount w₂ last pays fits,
            inserted,
          ),
          same,
        )
