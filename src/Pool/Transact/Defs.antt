-- ===== src/Pool/Transact/Defs.antt =====
-- `transact` and `internal_transact` (contracts/pool/src/pool.rs), check by check and effect by
-- effect.
use paymage.Base.{
  ℕ, ℤ, pos, negsuc, suc, zero, Bool, true, false, not, ◌||◌, ◌==◌, Option, none, some, List, [],
  ◌∷◌, Map, insert, ltb,
}
use paymage.Host.Outcome.{
  ⊤, or_trap, gets, modify, fail_if, trap_unless, pure, skip, attempt, ◌>>=◌, ◌>>◌,
}
use paymage.Host.Interface.{Address, U256, Auth}
use paymage.Pool.Tree.Defs.{insert_two_leaves, is_known_root}
use paymage.Pool.State.{
  Error, Proof, ExtData, Event, M, Env, on_tree, publish, get_nullifiers, set_nullifiers, get_token,
  get_maximum_deposit, get_asp_membership_root, get_asp_non_membership_root, hash_ext_data,
}
use paymage.Pool.Amounts.Defs.{calculate_public_amount, i256_to_i128_nonneg, negate}
use paymage.Pool.Verify.{verify_proof}

-- `unwrap_or(false)`
abbrev pub or_false : Option Bool → Bool
or_false none = false
or_false (some b) = b

abbrev pub is_marked : Map Bool → U256 → Bool
is_marked m n = or_false (m n)

module _ {L : Type 0} where
  unfoldable pub is_spent : U256 → M L Bool
  unfolding get_nullifiers
  is_spent n = do nulls ← get_nullifiers; pure (is_marked nulls n)

  unfoldable pub mark_spent : U256 → M L ⊤
  unfolding get_nullifiers set_nullifiers
  mark_spent n = do nulls ← get_nullifiers; set_nullifiers (insert n true nulls)

  -- Step 2: no input nullifier is spent.
  unfoldable pub check_nullifiers : List U256 → M L ⊤
  unfolding is_spent
  check_nullifiers [] = skip
  check_nullifiers (n ∷ ns) = do
    fail_if (← is_spent n) Error.already_spent_nullifier
    check_nullifiers ns

  -- Step 6: each is marked and published.
  unfoldable pub spend_nullifiers : List U256 → M L ⊤
  unfolding mark_spent
  spend_nullifiers [] = skip
  spend_nullifiers (n ∷ ns) = do
    attempt (mark_spent n)
    publish (Event.new_nullifier n)
    spend_nullifiers ns

  unfoldable pub transfer : Env L → Address → Address → Address → ℕ → M L ⊤
  transfer env token from to amount = do
    ledger ← or_trap (env.host.transfer token from to amount (← gets (λ w. w.ledger)))
    modify λ w. record w { ledger = ledger }

  -- `if ext_amount > 0`: the deposit, before the transaction.
  unfoldable pub deposit : Env L → Address → Address → ℤ → M L ⊤
  unfolding get_maximum_deposit transfer
  deposit env token sender (pos zero) = skip
  deposit env token sender (pos (suc n)) = do
    max ← get_maximum_deposit
    fail_if (ltb max (suc n)) Error.wrong_ext_amount
    amount ← i256_to_i128_nonneg (pos (suc n))
    transfer env token sender env.host.this amount
  deposit env token sender (negsuc n) = skip

  -- `if ext_amount < 0`: the withdrawal.
  unfoldable pub pay_recipient : Env L → Address → Address → ℤ → M L ⊤
  unfolding transfer
  pay_recipient env token recipient (pos n) = skip
  pay_recipient env token recipient (negsuc n) = do
    abs ← or_trap (negate (suc n))
    amount ← i256_to_i128_nonneg (pos abs)
    transfer env token env.host.this recipient amount

module _ {L : Type 0} (env : Env L) where
  -- Steps 1 to 5.
  unfoldable pub validate : Proof → ExtData → M L ⊤
  unfolding get_asp_membership_root get_asp_non_membership_root
  validate proof ext_data = do
    known ← on_tree (is_known_root proof.root)
    fail_if (not known) Error.unknown_root
    check_nullifiers proof.input_nullifiers
    fail_if (not (hash_ext_data env ext_data == proof.ext_data_hash)) Error.wrong_ext_hash
    expected ← calculate_public_amount ext_data.ext_amount
    fail_if (not (proof.public_amount == expected)) Error.wrong_ext_amount
    member_root ← get_asp_membership_root env
    non_member_root ← get_asp_non_membership_root env
    fail_if
        (not (member_root == proof.asp_membership_root)
          || not (non_member_root == proof.asp_non_membership_root))
        Error.invalid_proof
    is_valid ← verify_proof env proof
    fail_if (not is_valid) Error.invalid_proof

  -- Steps 9 and 10.
  unfoldable pub insert_commitments : Proof → ExtData → M L ⊤
  insert_commitments proof ext_data = do
    indices ← on_tree (insert_two_leaves env.perm proof.output_commitment0 proof.output_commitment1)
    publish (Event.new_commitment proof.output_commitment0 indices.0 ext_data.encrypted_output0)
    publish (Event.new_commitment proof.output_commitment1 indices.1 ext_data.encrypted_output1)

  unfoldable pub internal_transact : Proof → ExtData → M L ⊤
  unfolding get_token
  internal_transact proof ext_data = do
    validate proof ext_data
    spend_nullifiers proof.input_nullifiers
    token ← get_token
    pay_recipient env token ext_data.recipient ext_data.ext_amount
    insert_commitments proof ext_data

  unfoldable pub transact : Auth → Proof → ExtData → Address → M L ⊤
  unfolding get_token
  transact auth proof ext_data sender = do
    trap_unless (auth sender)
    token ← get_token
    deposit env token sender ext_data.ext_amount
    internal_transact proof ext_data
