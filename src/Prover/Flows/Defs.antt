-- ===== src/Prover/Flows/Defs.antt =====
-- Notes, parameters and results, and the hashes of notes. A key is the number that its bytes stand
-- for; their decoding, and the texts for the witness calculator, are left out.
use paymage.Base.{ℕ, Option, List}
use paymage.Host.Outcome.{Action, ⊤}
use paymage.Host.Interface.{Address, U256, Bytes}
use paymage.Planner.Amounts.{NoteAmount, ExtAmount}
use paymage.Pool.State.{ExtData}

abbrev pub n_inputs : ℕ
n_inputs = 2

abbrev pub n_outputs : ℕ
n_outputs = 2

pub record TransactInputNote : Type 0 where
  pub amount : NoteAmount
  pub blinding : U256
  pub merkle_path_elements : List U256
  pub merkle_path_indices : U256

pub record TransactOutput : Type 0 where
  pub amount : NoteAmount
  pub blinding : U256
  pub recipient_note_pubkey : Option U256
  pub recipient_encryption_pubkey : Option U256

-- `AspMembershipProof` and `AspNonMembershipProof`, of which the flows read the shape and the root.
pub record AspProof : Type 0 where
  pub path : List U256
  pub root : U256

pub record TransactParams : Type 0 where
  pub priv_key : U256
  pub encryption_pubkey : U256
  pub pool_root : U256
  pub ext_recipient : Address
  pub ext_amount : ExtAmount
  pub inputs : List TransactInputNote
  pub outputs : List TransactOutput
  pub membership_proof : AspProof
  pub non_membership_proof : AspProof
  pub tree_depth : ℕ
  pub smt_depth : ℕ

pub record PreparedTx : Type 0 where
  pub pool_root : U256
  pub input_nullifiers : List U256
  pub output_commitments : List U256
  pub public_amount_field : U256
  pub ext_data_hash_be : U256
  pub asp_membership_root : U256
  pub asp_non_membership_root : U256

-- `input_slots` and `output_slots` are the notes from which the code writes `circuit_inputs`, whose
-- texts are left out.
pub record TransactArtifacts : Type 0 where
  pub input_slots : List TransactInputNote
  pub output_slots : List TransactOutput
  pub ext_data : ExtData
  pub prepared : PreparedTx

-- The state is what the source of randomness will give; every error is a text.
abbrev pub M : Type 0 → Type 0
M A = Action (List U256) ⊤ A

-- What comes from libraries: the permutation at two widths, the encryption of a note for a key, which
-- may draw randomness and may fail, and the digest of the external data, which may fail.
pub record Crypto : Type 0 where
  pub perm₃ : U256 → U256 → U256 → U256
  pub perm₄ : U256 → U256 → U256 → U256 → U256
  pub encrypt_output_note : U256 → NoteAmount → U256 → M Bytes
  pub hash_ext_data : ExtData → Option U256

module _ (crypto : Crypto) where
  abbrev pub derive_public_key : U256 → U256
  derive_public_key private_key = crypto.perm₃ private_key 0 3

  abbrev pub compute_commitment : NoteAmount → U256 → U256 → U256
  compute_commitment amount public_key blinding = crypto.perm₄ amount public_key blinding 1

  abbrev pub compute_signature : U256 → U256 → U256 → U256
  compute_signature private_key commitment merkle_path =
      crypto.perm₄ private_key commitment merkle_path 4

  abbrev pub compute_nullifier : U256 → U256 → U256 → U256
  compute_nullifier commitment path_indices signature =
      crypto.perm₄ commitment path_indices signature 2
