-- ===== src/Prover/Flows/Build.antt =====
-- `transact` and the flows that call it.
use paymage.Base.{
  ℕ, zero, suc, ◌-◌, ◌==◌, not, ltb, Bool, true, false, is_some, Option, some, none, List, [], ◌∷◌,
  ◌++◌, length, get_or, map, pos, negsuc,
}
use paymage.Host.Outcome.{⊤, ok, err, ok_or, fail_if, pure, skip, ◌>>=◌, ◌>>◌}
use paymage.Host.Interface.{U256, Bytes}
use paymage.Planner.Amounts.{NoteAmount, ExtAmount, checked_add, checked_sub, checked_neg}
use paymage.Field.Defs.{from_ext, to_note}
use paymage.Prover.Flows.Defs.{
  TransactInputNote, TransactOutput, TransactParams, TransactArtifacts, Crypto, M, n_inputs,
  n_outputs, derive_public_key, compute_commitment, compute_signature, compute_nullifier,
}

-- `generate_random_blinding`
abbrev pub generate_random_blinding : M U256
generate_random_blinding [] = err tt
generate_random_blinding (r ∷ rs) = ok r rs

-- The loop of `sum_note_amounts_inputs` and `sum_note_amounts_outputs`.
unfoldable pub sum_note_amounts : NoteAmount → List NoteAmount → Option NoteAmount
sum_note_amounts sum [] = some sum
sum_note_amounts sum (x ∷ xs) = elim (checked_add sum x) [
  | none ↦ none
  | some sum' ↦ sum_note_amounts sum' xs
]

abbrev pub input_amounts : List TransactInputNote → List NoteAmount
input_amounts [] = []
input_amounts (n ∷ ns) = n.amount ∷ input_amounts ns

abbrev pub output_amounts : List TransactOutput → List NoteAmount
output_amounts [] = []
output_amounts (o ∷ os) = o.amount ∷ output_amounts os

-- inputs + ext_amount == outputs
unfoldable pub balanced : ExtAmount → NoteAmount → NoteAmount → M Bool
balanced (pos n) inputs_sum outputs_sum = do
  public_note ← ok_or (to_note (pos n)) tt
  lhs ← ok_or (checked_add inputs_sum public_note) tt
  pure (lhs == outputs_sum)
balanced (negsuc n) inputs_sum outputs_sum = do
  magnitude ← ok_or (checked_neg (negsuc n)) tt
  public_note ← ok_or (to_note magnitude) tt
  rhs ← ok_or (checked_add outputs_sum public_note) tt
  pure (inputs_sum == rhs)

abbrev pub zero_path : ℕ → List U256
zero_path zero = []
zero_path (suc n) = 0 ∷ zero_path n

-- So many dummies, by `dummy_input`.
unfoldable pub dummy_inputs : ℕ → ℕ → M (List TransactInputNote)
dummy_inputs tree_depth zero = pure []
dummy_inputs tree_depth (suc n) = do
  blinding ← generate_random_blinding
  rest ← dummy_inputs tree_depth n
  pure (
      record {
        amount = 0;
        blinding = blinding;
        merkle_path_elements = zero_path tree_depth;
        merkle_path_indices = 0;
      }
      ∷ rest)

unfoldable pub dummy_outputs : ℕ → M (List TransactOutput)
dummy_outputs zero = pure []
dummy_outputs (suc n) = do
  blinding ← generate_random_blinding
  rest ← dummy_outputs n
  pure (
      record {
        amount = 0;
        blinding = blinding;
        recipient_note_pubkey = none;
        recipient_encryption_pubkey = none;
      }
      ∷ rest)

unfoldable pub check_paths : ℕ → List TransactInputNote → M ⊤
check_paths tree_depth [] = skip
check_paths tree_depth (n ∷ ns) = do
  fail_if (not (length n.merkle_path_elements == tree_depth)) tt
  check_paths tree_depth ns

-- Both recipient keys are set or none.
abbrev pub is_unpaired : TransactOutput → Bool
is_unpaired o = elim (is_some o.recipient_note_pubkey) [
  | true ↦ not (is_some o.recipient_encryption_pubkey)
  | false ↦ is_some o.recipient_encryption_pubkey
]

unfoldable pub check_recipients : List TransactOutput → M ⊤
check_recipients [] = skip
check_recipients (o ∷ os) = do fail_if (is_unpaired o) tt; check_recipients os

-- `unwrap_or`
abbrev pub or_else : Option U256 → U256 → U256
or_else none d = d
or_else (some x) d = x

module _ (crypto : Crypto) where
  abbrev pub nullifier_of : U256 → TransactInputNote → U256
  nullifier_of priv_key n =
      let commitment =
        compute_commitment crypto n.amount (derive_public_key crypto priv_key) n.blinding in
      let signature = compute_signature crypto priv_key commitment n.merkle_path_indices in
      compute_nullifier crypto commitment n.merkle_path_indices signature

  abbrev pub output_commitment : U256 → TransactOutput → U256
  output_commitment priv_key o =
      compute_commitment crypto o.amount
        (or_else o.recipient_note_pubkey (derive_public_key crypto priv_key)) o.blinding

  unfoldable pub encrypt_outputs : U256 → List TransactOutput → M (List Bytes)
  encrypt_outputs encryption_pubkey [] = pure []
  encrypt_outputs encryption_pubkey (o ∷ os) = do
    enc ←
        crypto.encrypt_output_note (or_else o.recipient_encryption_pubkey encryption_pubkey)
          o.amount o.blinding
    rest ← encrypt_outputs encryption_pubkey os
    pure (enc ∷ rest)

  -- The checks before anything is made.
  unfoldable pub check_params : TransactParams → M ⊤
  check_params p = do
    fail_if (p.tree_depth == 0) tt
    fail_if (p.smt_depth == 0) tt
    fail_if (not (length p.membership_proof.path == p.tree_depth)) tt
    fail_if (not (length p.non_membership_proof.path == p.smt_depth)) tt
    fail_if (ltb n_outputs (length p.outputs)) tt
    inputs_sum ← ok_or (sum_note_amounts 0 (input_amounts p.inputs)) tt
    outputs_sum ← ok_or (sum_note_amounts 0 (output_amounts p.outputs)) tt
    is_balanced ← balanced p.ext_amount inputs_sum outputs_sum
    fail_if (not is_balanced) tt

  -- The notes in the slots, checked.
  unfoldable pub fill_slots : TransactParams → M (List TransactInputNote × List TransactOutput)
  fill_slots p = do
    fail_if (ltb n_inputs (length p.inputs)) tt
    more_inputs ← dummy_inputs p.tree_depth (n_inputs - length p.inputs)
    check_paths p.tree_depth (p.inputs ++ more_inputs)
    more_outputs ← dummy_outputs (n_outputs - length p.outputs)
    check_recipients (p.outputs ++ more_outputs)
    pure (p.inputs ++ more_inputs, p.outputs ++ more_outputs)

  unfoldable pub transact : TransactParams → M TransactArtifacts
  transact p = do
    check_params p
    slots ← fill_slots p
    public_amount_field ← ok_or (from_ext p.ext_amount) tt
    encrypted_outputs ← encrypt_outputs p.encryption_pubkey slots.1
    ext_data ← pure (record {
      recipient = p.ext_recipient;
      ext_amount = p.ext_amount;
      encrypted_output0 = get_or encrypted_outputs 0 [];
      encrypted_output1 = get_or encrypted_outputs 1 [];
    })
    ext_data_hash_be ← ok_or (crypto.hash_ext_data ext_data) tt
    pure (record {
      input_slots = slots.0;
      output_slots = slots.1;
      ext_data = ext_data;
      prepared = record {
        pool_root = p.pool_root;
        input_nullifiers = map (nullifier_of p.priv_key) slots.0;
        output_commitments = map (output_commitment p.priv_key) slots.1;
        public_amount_field = public_amount_field;
        ext_data_hash_be = ext_data_hash_be;
        asp_membership_root = p.membership_proof.root;
        asp_non_membership_root = p.non_membership_proof.root;
      };
    })

  -- `deposit` and `transfer`: the fields of their parameters are those of `transact` but for what
  -- they set.
  unfoldable pub deposit : TransactParams → ExtAmount → M TransactArtifacts
  deposit p amount = transact (record p { ext_amount = amount; inputs = [] })

  unfoldable pub transfer : TransactParams → M TransactArtifacts
  transfer p = transact (record p { ext_amount = pos 0 })

  -- The change and an empty note.
  unfoldable pub change_outputs : NoteAmount → M (List TransactOutput)
  change_outputs change = do
    change_blinding ← generate_random_blinding
    empty_note ← dummy_outputs 1
    pure (
        record {
          amount = change;
          blinding = change_blinding;
          recipient_note_pubkey = none;
          recipient_encryption_pubkey = none;
        }
        ∷ empty_note)

  -- `withdraw`, whose outputs may be given.
  unfoldable pub withdraw :
      TransactParams → Option (List TransactOutput) → ExtAmount → M TransactArtifacts
  withdraw p outputs withdraw_amount = do
    input_total ← ok_or (sum_note_amounts 0 (input_amounts p.inputs)) tt
    withdraw_note_amount ← ok_or (to_note withdraw_amount) tt
    fail_if (ltb input_total withdraw_note_amount) tt
    change ← ok_or (checked_sub input_total withdraw_note_amount) tt
    outputs ← elim outputs [ some v ↦ pure v | none ↦ change_outputs change ]
    ext_amount ← ok_or (checked_neg withdraw_amount) tt
    transact (record p { ext_amount = ext_amount; outputs = outputs })
