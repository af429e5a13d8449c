-- ===== src/Prover/Flows/Tests.antt =====
-- Transactions built from concrete notes.
use paymage.Base.{
  ℕ, ◌+◌, ◌*◌, ◌%◌, ◌≡◌, Option, some, none, List, [], ◌∷◌, pos, negsuc, arith, refl,
}
use paymage.Host.Outcome.{Outcome, ok, err, trap, pure}
use paymage.Host.Interface.{U256}
use paymage.Host.Sample.{funds}
use paymage.Poseidon.{bn256_modulus}
use paymage.Planner.Amounts.{checked_add, checked_sub, checked_neg}
use paymage.Field.Defs.{from_ext, to_note, bn254_prime}
use paymage.Pool.Amounts.Defs.{calculate_public_amount}
use paymage.Pool.Contract.Defs.{blank}
use paymage.Prover.Flows.Defs.{
  TransactInputNote, TransactOutput, TransactParams, TransactArtifacts, Crypto,
}
use paymage.Prover.Flows.Build.{
  sum_note_amounts, output_amounts, balanced, dummy_inputs, dummy_outputs, check_paths,
  check_recipients, encrypt_outputs, check_params, fill_slots, transact, change_outputs, withdraw,
}
use paymage.Prover.Flows.Balance.{IsBuilt, transact-IsBuilt}

abbrev crypto : Crypto
crypto = record {
  perm₃ = λ a b c. (2 * a + 3 * b + c) % bn256_modulus;
  perm₄ = λ a b c d. (2 * a + 3 * b + 5 * c + d) % bn256_modulus;
  encrypt_output_note = λ k n b. pure (k ∷ n ∷ b ∷ []);
  hash_ext_data = λ e. some 7;
}

-- One note of 100 is spent: 30 leave the pool.
abbrev note : TransactInputNote
note = record {
  amount = 100;
  blinding = 5;
  merkle_path_elements = 8 ∷ 9 ∷ [];
  merkle_path_indices = 1;
}

abbrev output : ℕ → TransactOutput
output n = record {
  amount = n;
  blinding = 6;
  recipient_note_pubkey = none;
  recipient_encryption_pubkey = none;
}

abbrev params : TransactParams
params = record {
  priv_key = 11;
  encryption_pubkey = 12;
  pool_root = 13;
  ext_recipient = 14;
  ext_amount = negsuc 29;
  inputs = note ∷ [];
  outputs = output 70 ∷ [];
  membership_proof = record { path = 1 ∷ 2 ∷ []; root = 15 };
  non_membership_proof = record { path = 0 ∷ []; root = 16 };
  tree_depth = 2;
  smt_depth = 1;
}

abbrev built_by : Outcome (List U256) Unit TransactArtifacts → Option TransactArtifacts
built_by (ok a rs) = some a
built_by (err e) = none
built_by trap = none

abbrev amounts : Option TransactArtifacts → List ℕ
amounts none = []
amounts (some a) = output_amounts a.output_slots

-- The default outputs of a withdrawal: the change and nothing.
change_of_30 :
    amounts (built_by (withdraw crypto params none (pos 30) (21 ∷ 22 ∷ 23 ∷ []))) ≡ 70 ∷ 0 ∷ []
unfolding withdraw change_outputs transact check_params fill_slots sum_note_amounts balanced
    dummy_inputs dummy_outputs check_paths check_recipients encrypt_outputs checked_add checked_sub
    checked_neg from_ext to_note bn254_prime
change_of_30 = refl

too_much : withdraw crypto params none (pos 101) (21 ∷ 22 ∷ 23 ∷ []) ≡ err tt
unfolding withdraw sum_note_amounts checked_add to_note
too_much = refl

not_balanced : transact crypto (record params { outputs = output 71 ∷ [] }) (21 ∷ 22 ∷ []) ≡ err tt
unfolding transact check_params sum_note_amounts balanced checked_add checked_neg to_note
not_balanced = refl

built : (a : TransactArtifacts) × (transact crypto params (21 ∷ 22 ∷ []) ≡ ok a [])
unfolding transact check_params fill_slots sum_note_amounts balanced dummy_inputs dummy_outputs
    check_paths check_recipients encrypt_outputs checked_add checked_neg from_ext to_note
    bn254_prime
built = (_, refl)

transact-IsBuilt_example :
    IsBuilt crypto params built.0
    × (calculate_public_amount built.0.ext_data.ext_amount (blank funds)
        ≡ ok built.0.prepared.public_amount_field (blank funds))
transact-IsBuilt_example =
    transact-IsBuilt crypto (blank funds) params (21 ∷ 22 ∷ []) built.1 (omega arith) (omega arith)
