-- ===== src/Pool/Transact/Phases.antt =====
-- What each phase of `transact` has checked and changed when it succeeds.
use paymage.Base.{
  ℤ, pos, negsuc, suc, zero, ◌≡◌, ◌≤◌, Bool, true, false, some, List, [], ◌∷◌, All, Map, insert,
  arith, refl,
}
use paymage.Host.Outcome.{Action, or_trap, ◌>>=◌, ok, >>=-elim, fail_if}
use paymage.Host.Interface.{Address, U256, i128_max}
use paymage.Poseidon.{InField, bn256_modulus}
use paymage.Pool.State.{Proof, Event, World, Env, Error, get_verifier}
use paymage.Pool.Verify.{
  is_empty, public_inputs, validate_bn256_public_input, validate_nullifiers,
  validate_bn256_public_inputs, verify_proof,
}
use paymage.Pool.Amounts.Defs.{i256_to_i128_nonneg}
use paymage.Pool.Transact.Defs.{
  is_marked, check_nullifiers, spend_nullifiers, deposit, pay_recipient,
}

-- Every value that goes into the public inputs, but the hash, is a canonical field element.
pub record IsCanonical (p : Proof) : Type 0 where
  pub root_in : InField p.root
  pub amount_in : InField p.public_amount
  pub nullifiers_in : All InField p.input_nullifiers
  pub commitment0_in : InField p.output_commitment0
  pub commitment1_in : InField p.output_commitment1
  pub membership_in : InField p.asp_membership_root
  pub non_membership_in : InField p.asp_non_membership_root

abbrev pub mark_all : List U256 → Map Bool → Map Bool
mark_all [] m = m
mark_all (n ∷ ns) m = mark_all ns (insert n true m)

abbrev pub publish_all : List U256 → List Event → List Event
publish_all [] es = es
publish_all (n ∷ ns) es = publish_all ns (Event.new_nullifier n ∷ es)

module _ {L : Type 0} where
  validate_nullifiers_lem :
      (ns : List U256) (w w' : World L)
      → validate_nullifiers ns bn256_modulus w ≡ ok tt w'
      → (w' ≡ w) × All InField ns
  unfolding validate_nullifiers
  validate_nullifiers_lem [] w w' h = ground arith
  validate_nullifiers_lem (n ∷ ns) w w' h = ground (arith, validate_nullifiers_lem ns w w')

  validate_bn256_public_inputs_lem :
      (p : Proof) (w w' : World L)
      → validate_bn256_public_inputs p bn256_modulus w ≡ ok tt w'
      → (w' ≡ w) × IsCanonical p
  unfolding validate_bn256_public_inputs validate_bn256_public_input
  validate_bn256_public_inputs_lem p w w' h =
      >>=-elim (validate_bn256_public_input p.root bn256_modulus) _ h λ _ w₁ e₁ h₁.
        >>=-elim (validate_bn256_public_input p.public_amount bn256_modulus) _ h₁ λ _ w₂ e₂ h₂.
          >>=-elim (validate_nullifiers p.input_nullifiers bn256_modulus) _ h₂
            λ _ w₃ e₃ h₃. ground (arith, validate_nullifiers_lem p.input_nullifiers w₂ w₃ e₃)

  pub check_nullifiers_lem :
      (ns : List U256) (nulls : Map Bool) (w w' : World L)
      → w.store.nullifiers ≡ some nulls
      → check_nullifiers ns w ≡ ok tt w'
      → (w' ≡ w) × All (λ n. is_marked nulls n ≡ false) ns
  unfolding check_nullifiers
  check_nullifiers_lem [] nulls w w' e h = ground arith
  check_nullifiers_lem (n ∷ ns) nulls w w' e h =
      ground (arith, check_nullifiers_lem ns nulls w w' e)

  abbrev pub with_spent : List U256 → Map Bool → World L → World L
  with_spent ns nulls w = record w {
    store = record (w.store) { nullifiers = some (mark_all ns nulls) };
    events = publish_all ns w.events;
  }

  pub spend_nullifiers_lem :
      (ns : List U256) (nulls : Map Bool) (w : World L)
      → w.store.nullifiers ≡ some nulls
      → spend_nullifiers ns w ≡ ok tt (with_spent ns nulls w)
  unfolding spend_nullifiers
  spend_nullifiers_lem [] nulls w e = ground arith
  spend_nullifiers_lem (n ∷ ns) nulls w e =
      ground
        (arith, spend_nullifiers_lem ns (insert n true nulls) (with_spent (n ∷ []) nulls w) refl)

  module _ (env : Env L) where
    -- The verifier's answer to a proof that is not empty and whose inputs are canonical.
    pub record IsVerified (p : Proof) (w : World L) (b : Bool) (v : Address) : Type 0 where
      pub verifier_set : w.store.verifier ≡ some v
      pub answer : env.host.verify v p.proof (public_inputs p) ≡ some b
      pub not_empty : is_empty p.proof ≡ false
      pub canonical : IsCanonical p

    pub verify_proof_lem :
        (p : Proof) (w w' : World L) (b : Bool)
        → verify_proof env p w ≡ ok b w'
        → (v : Address) × IsVerified p w b v × (w' ≡ w)
    unfolding verify_proof get_verifier
    verify_proof_lem p w w' b h =
        let answer : Address → Action (World L) Error Bool =
          λ v. or_trap (env.host.verify v p.proof (public_inputs p)) in
        let checked : Address → Action (World L) Error Bool =
          λ v. validate_bn256_public_inputs p bn256_modulus >>= (λ _. answer v) in
        let read : Action (World L) Error Bool = get_verifier >>= checked in
        >>=-elim (fail_if (is_empty p.proof) Error.invalid_proof) (λ _. read) h
          λ _ w₁ e₁ h₁. >>=-elim get_verifier checked h₁ λ v w₂ e₂ h₂.
            >>=-elim (validate_bn256_public_inputs p bn256_modulus) (λ _. answer v) h₂
              λ _ w₃ e₃ h₃. (
                v,
                ground (arith, validate_bn256_public_inputs_lem p w₂ w₃ e₃),
                ground (arith, validate_bn256_public_inputs_lem p w₂ w₃ e₃),
              )

    -- What a deposit of `v`, and a withdrawal of `v`, does to the tokens.
    abbrev pub Deposits : Address → Address → ℤ → L → L → Type 0
    Deposits token sender (pos zero) l l' = l' ≡ l
    Deposits token sender (pos (suc n)) l l' =
        env.host.transfer token sender env.host.this (suc n) l ≡ some l'
    Deposits token sender (negsuc n) l l' = l' ≡ l

    abbrev pub Pays : Address → Address → ℤ → L → L → Type 0
    Pays token recipient (pos n) l l' = l' ≡ l
    Pays token recipient (negsuc n) l l' =
        env.host.transfer token env.host.this recipient (suc n) l ≡ some l'

    -- The limit on a deposit, where there is one.
    abbrev pub WithinLimit : ℤ → World L → Type 0
    WithinLimit (pos zero) w = Unit
    WithinLimit (pos (suc n)) w =
        (max : U256) × (w.store.maximum_deposit_amount ≡ some max)
        × (suc n ≤ max)
        × (suc n ≤ i128_max)
    WithinLimit (negsuc n) w = Unit

    pub deposit_lem :
        (token sender : Address) (v : ℤ) (w w' : World L)
        → deposit env token sender v w ≡ ok tt w'
        → (w' ≡ record w { ledger = w'.ledger })
          × Deposits token sender v w.ledger w'.ledger
          × WithinLimit v w
    unfolding deposit i256_to_i128_nonneg
    deposit_lem token sender (pos zero) w w' h = ground arith
    deposit_lem token sender (pos (suc n)) w w' h = ground arith
    deposit_lem token sender (negsuc n) w w' h = ground arith

    pub pay_recipient_lem :
        (token recipient : Address) (v : ℤ) (w w' : World L)
        → pay_recipient env token recipient v w ≡ ok tt w'
        → (w' ≡ record w { ledger = w'.ledger }) × Pays token recipient v w.ledger w'.ledger
    unfolding pay_recipient i256_to_i128_nonneg
    pay_recipient_lem token recipient (pos n) w w' h = ground arith
    pay_recipient_lem token recipient (negsuc n) w w' h = ground arith
