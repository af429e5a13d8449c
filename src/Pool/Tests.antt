-- ===== src/Pool/Tests.antt =====
-- The pool on concrete inputs, and each theorem of the contract at such an input.
use paymage.Base.{
  ◌≤◌, ◌<◌, length, ◌^◌, ℕ, pos, negsuc, suc, neg_part, ◌+◌, ◌%◌, ◌≡◌, ◌≢◌, refl, true, some, [],
  ◌∷◌, arith, inl, elem,
}
use paymage.Host.Outcome.{Outcome, ok, err, trap}
use paymage.Host.Interface.{Address}
use paymage.Host.Sample.{Ledger, host, auth, balance, host-IsToken, funds}
use paymage.Poseidon.{bn256_modulus, InField, hash, zero_at, get_zeroes, poseidon2_compress}
use paymage.Poseidon.Sample.{perm, perm-Permutes, perm-IsZeroTable}
use paymage.Merkle.Spec.{root_of}
use paymage.Merkle.Path.{init_levels, insert_path}
use paymage.Pool.Tree.Defs.{init, insert_two_leaves, is_known_root, search_roots, push_root}
use paymage.Pool.State.{Error, Proof, ExtData, World, Env, hash_ext_data}
use paymage.Pool.Verify.{verify_proof, is_empty, validate_bn256_public_inputs, validate_nullifiers}
use paymage.Pool.Admin.{constructor, get_root}
use paymage.Pool.Amounts.Defs.{calculate_public_amount, i256_to_i128_nonneg}
use paymage.Pool.Amounts.Laws.{calculate_public_amount_lem}
use paymage.Pool.Transact.Defs.{
  is_spent, transact, internal_transact, validate, deposit, check_nullifiers, spend_nullifiers,
  pay_recipient, insert_commitments,
}
use paymage.Pool.Transact.Settle.{IsTransacted, transact-IsTransacted}
use paymage.Pool.Transact.Ready.{transact-succeeds}
use paymage.Pool.Transact.Value.{transact-balance}
use paymage.Pool.Contract.Invariant.{Holds, Reach-Holds}
use paymage.Pool.Contract.Safety.{
  Reach-get_root, Reach-is_spent, transact-no_double_spend, execute-actor,
}
use paymage.Pool.Contract.Defs.{
  Call, execute, blank, invoke, Reach, deployed, next, commitments, nullifiers,
}

abbrev env : Env Ledger
env = record {
  host = host;
  perm = perm;
  digest = λ e. 7;
  membership_root = λ a. some 11;
  non_membership_root = λ a. some 12;
}

abbrev final : {E : Type 0} → Outcome (World Ledger) E Unit → World Ledger
final (ok a w) = w
final (err e) = blank funds
final trap = blank funds

-- A pool of one level for the token 2, with a limit of 1000.
w₁ : World Ledger
unfolding constructor init init_levels get_zeroes
w₁ = final (constructor 10 2 3 4 5 1000 1 (blank funds))

abbrev proof : Proof
proof = record {
  proof = record { a = 1 ∷ []; b = 2 ∷ []; c = 3 ∷ [] };
  root = zero_at perm 1;
  input_nullifiers = 41 ∷ 42 ∷ [];
  output_commitment0 = 51;
  output_commitment1 = 52;
  public_amount = 100;
  ext_data_hash = 7;
  asp_membership_root = 11;
  asp_non_membership_root = 12;
}

abbrev ext_data : ExtData
ext_data = record {
  recipient = 6;
  ext_amount = pos 100;
  encrypted_output0 = 1 ∷ [];
  encrypted_output1 = 2 ∷ [];
}

-- The owner of address 1 deposits 100.
pub w₂ : World Ledger
unfolding w₁ transact internal_transact validate zero_at hash perm deposit i256_to_i128_nonneg
    is_known_root search_roots check_nullifiers hash_ext_data calculate_public_amount verify_proof
    is_empty validate_bn256_public_inputs validate_nullifiers spend_nullifiers pay_recipient
    insert_commitments insert_two_leaves poseidon2_compress insert_path push_root
w₂ = final (transact env auth proof ext_data 1 w₁)

constructor_ok : constructor 10 2 3 4 5 1000 1 (blank funds) ≡ ok tt w₁
unfolding w₁
constructor_ok = refl

transact_ok : transact env auth proof ext_data 1 w₁ ≡ ok tt w₂
unfolding w₂
transact_ok = refl

-- The same proof again is refused: its nullifiers are spent.
transact_again : transact env auth proof ext_data 1 w₂ ≡ err Error.already_spent_nullifier
unfolding w₂
transact_again = refl

balances : (balance 2 9 w₂.ledger ≡ 100) × (balance 2 1 w₂.ledger ≡ 4900)
unfolding w₂
balances = (refl, refl)

w₁-Reach : Reach perm w₁
w₁-Reach = deployed funds 10 2 3 4 5 1000 1 constructor_ok

pub w₂-Reach : Reach perm w₂
unfolding execute
w₂-Reach = next w₁-Reach (invoke env auth (Call.transact proof ext_data 1) transact_ok)

pub two_published : 1 < length (commitments w₂.events)
unfolding w₂
two_published = omega arith

w₁-Holds : Holds perm perm-Permutes w₁
w₁-Holds = Reach-Holds perm perm-Permutes perm-IsZeroTable w₁-Reach

Reach-get_root_example :
    (k : ℕ) × (w₂.tree.levels ≡ some (suc k))
    × (get_root w₂ ≡ ok (root_of perm (suc k) (commitments w₂.events)) w₂)
Reach-get_root_example = Reach-get_root perm perm-Permutes perm-IsZeroTable w₂-Reach

Reach-is_spent_example : is_spent 41 w₂ ≡ ok (elem 41 (nullifiers w₂.events)) w₂
Reach-is_spent_example = Reach-is_spent perm perm-Permutes perm-IsZeroTable 41 w₂-Reach

transact-no_double_spend_example :
    transact env auth (record proof { input_nullifiers = 42 ∷ [] }) ext_data 1 w₂ ≢ ok tt w₂
unfolding w₂
transact-no_double_spend_example =
    transact-no_double_spend perm perm-Permutes perm-IsZeroTable env auth
      (record proof { input_nullifiers = 42 ∷ [] }) ext_data 1 42 w₂-Reach (inl refl) (inl refl)

execute-actor_example : (a : Address) × (some 1 ≡ some a) × (auth a ≡ true)
unfolding execute
execute-actor_example = execute-actor env auth (Call.transact proof ext_data 1) w₁ transact_ok

transact-IsTransacted_example :
    (token : Address) × (verifier : Address) × (member : Address) × (non_member : Address)
    × (mid : Ledger) × IsTransacted env perm-Permutes auth
        (commitments w₁.events)
        w₁-Holds.0
        w₁-Holds.1
        w₁-Holds.2
        w₁-Holds.3
        proof
        ext_data
        1
        w₁
        w₂
        token
        verifier
        member
        non_member
        mid
transact-IsTransacted_example =
    transact-IsTransacted env perm-Permutes auth (commitments w₁.events) w₁-Holds.0 w₁-Holds.1
      w₁-Holds.2 w₁-Holds.3 proof ext_data 1 w₁ w₂ w₁-Holds.4.pool transact_ok

transact-balance_example :
    (t : Address) × (w₁.store.token ≡ some t)
    × (balance t 9 w₂.ledger + 0 ≡ balance t 9 w₁.ledger + 100)
    × ((100 + 0) % bn256_modulus ≡ 100)
transact-balance_example =
    transact-balance env balance host-IsToken perm-Permutes auth (commitments w₁.events) w₁-Holds.0
      w₁-Holds.1 w₁-Holds.2 w₁-Holds.3 proof ext_data 1 w₁ w₂ w₁-Holds.4.pool transact_ok
      (omega arith) (omega arith)

calculate_public_amount_lem_example :
    (r : ℕ) × (calculate_public_amount (negsuc 4) w₁ ≡ ok r w₁)
    × InField r
    × ((r + neg_part (negsuc 4)) % bn256_modulus ≡ 0)
calculate_public_amount_lem_example = calculate_public_amount_lem w₁ (negsuc 4) (omega arith)

five_ok : calculate_public_amount (pos 5) w₁ ≡ ok 5 w₁
unfolding calculate_public_amount
five_ok = refl

abbrev done :
    (token : Address) × (verifier : Address) × (member : Address) × (non_member : Address)
    × (mid : Ledger) × IsTransacted env perm-Permutes auth
        (commitments w₁.events)
        w₁-Holds.0
        w₁-Holds.1
        w₁-Holds.2
        w₁-Holds.3
        proof
        ext_data
        1
        w₁
        w₂
        token
        verifier
        member
        non_member
        mid
done =
    transact-IsTransacted env perm-Permutes auth (commitments w₁.events) w₁-Holds.0 w₁-Holds.1
      w₁-Holds.2 w₁-Holds.3 proof ext_data 1 w₁ w₂ w₁-Holds.4.pool transact_ok

room : length (commitments w₁.events) + 2 ≤ 2 ^ suc w₁-Holds.1
unfolding w₁
room =
    let levels : some 1 ≡ some (suc w₁-Holds.1) = w₁-Holds.4.pool.is_tree.levels_set in ground arith

transact-succeeds_example :
    (w' : World Ledger) × (transact env auth proof ext_data 1 w₁ ≡ ok tt w')
    × (w'.ledger ≡ w₂.ledger)
transact-succeeds_example =
    transact-succeeds env perm-Permutes auth (commitments w₁.events) w₁-Holds.0 w₁-Holds.1
      w₁-Holds.2 w₁-Holds.3 proof ext_data 1 w₁ done.0 done.1 done.2 done.3 done.4 w₂.ledger
      w₁-Holds.4.pool done.5.validated refl done.5.token_set done.5.within tt done.5.deposited
      done.5.paid room
