-- ===== src/Payroll/Withdraw/Defs.antt =====
-- `withdraw`: its checks in order, the spent nullifier and the transfer out of escrow.
use paymage.Base.{ℕ, Bool, true, false, not, Option, none, some, List, get_elem?, insert, is_some}
use paymage.Host.Outcome.{⊤, ok_or, or_trap, gets, fail_if, trap_unless, pure, ◌>>=◌, ◌>>◌}
use paymage.Host.Interface.{Address, U256, Groth16Proof, Host, Auth}
use paymage.Payroll.State.{Error, Event, DataKey, Storage, M, store_with, publish, extend_ttl}
use paymage.Payroll.Run.Effects.{to_i128, transfer}

-- `[commitmentRoot, commitmentId, nullifier, salaryAmount]`
pub record Claim : Type 0 where
  pub commitment_root : U256
  pub commitment_id : U256
  pub nullifier : U256
  pub salary_amount : U256

-- `get(..).unwrap_or(false)`
abbrev pub is_true : Option Bool → Bool
is_true none = false
is_true (some b) = b

abbrev pub spent : Storage → U256 → Bool
spent s n = is_true (s.withdrawn_nullifier n)

module _ {L : Type 0} where
  unfoldable pub verify_withdrawal : Host L → Groth16Proof → List U256 → M L ⊤
  verify_withdrawal host proof public_inputs = do
    verifier ← ok_or (← gets (λ w. w.store.withdraw_verifier)) Error.withdraw_verifier_not_set
    is_valid ← or_trap (host.verify verifier proof public_inputs)
    fail_if (not is_valid) Error.proof_verification_failed

  unfoldable pub read_claim : List U256 → M L Claim
  read_claim public_inputs = do
    root ← ok_or (get_elem? public_inputs 0) Error.non_canonical_input
    id ← ok_or (get_elem? public_inputs 1) Error.non_canonical_input
    nullifier ← ok_or (get_elem? public_inputs 2) Error.non_canonical_input
    salary ← ok_or (get_elem? public_inputs 3) Error.non_canonical_input
    pure (record {
      commitment_root = root;
      commitment_id = id;
      nullifier = nullifier;
      salary_amount = salary;
    })

  -- Steps 3 to 5: the period of the root, the commitment, and the nullifier.
  unfoldable pub check_claim : Claim → M L ℕ
  check_claim c = do
    period ←
        ok_or (← gets (λ w. w.store.root_to_period c.commitment_root)) Error.period_not_initialized
    present ← gets (λ w. is_some (w.store.commitment_record c.commitment_id))
    fail_if (not present) Error.commitment_not_found
    fail_if (← gets (λ w. spent w.store c.nullifier)) Error.nullifier_already_spent
    pure period

  unfoldable pub mark_spent : U256 → M L ⊤
  mark_spent n = do
    store_with λ s. record s { withdrawn_nullifier = insert n true s.withdrawn_nullifier }
    extend_ttl (DataKey.withdrawn_nullifier n)

  unfoldable pub pay_out : Host L → Address → U256 → M L ⊤
  unfolding to_i128 transfer
  pay_out host recipient salary = do
    token ← ok_or (← gets (λ w. w.store.token)) Error.token_not_set
    amount ← to_i128 salary
    transfer host token host.this recipient amount

module _ {L : Type 0} (host : Host L) (auth : Auth) where
  unfoldable pub withdraw : Groth16Proof → List U256 → Address → M L ⊤
  withdraw proof public_inputs recipient = do
    trap_unless (auth recipient)
    verify_withdrawal host proof public_inputs
    c ← read_claim public_inputs
    period ← check_claim c
    mark_spent c.nullifier
    pay_out host recipient c.salary_amount
    publish (Event.withdrawal c.nullifier period c.salary_amount recipient)
