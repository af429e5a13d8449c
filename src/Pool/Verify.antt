-- ===== src/Pool/Verify.antt =====
-- The canonical-input checks and the proof verification of the pool (contracts/pool/src/pool.rs).
use paymage.Base.{ℕ, suc, zero, Bool, true, false, ◌||◌, List, [], ◌∷◌, ◌++◌, leb, length}
use paymage.Host.Outcome.{⊤, or_trap, fail_if, skip, ◌>>=◌, ◌>>◌}
use paymage.Host.Interface.{U256, Bytes, Groth16Proof}
use paymage.Poseidon.{bn256_modulus}
use paymage.Pool.State.{Error, Proof, M, Env, get_verifier}

abbrev is_empty_bytes : Bytes → Bool
is_empty_bytes [] = true
is_empty_bytes (b ∷ bs) = false

-- `Groth16Proof::is_empty`
unfoldable pub is_empty : Groth16Proof → Bool
is_empty p = is_empty_bytes p.a || is_empty_bytes p.b || is_empty_bytes p.c

abbrev pub replicate : ℕ → U256 → List U256
replicate zero x = []
replicate (suc n) x = x ∷ replicate n x

-- The public inputs in the order of the policy circuit.
unfoldable pub public_inputs : Proof → List U256
public_inputs p =
    p.root
    ∷ p.public_amount
    ∷ p.ext_data_hash
    ∷ (p.input_nullifiers
        ++ p.output_commitment0
          ∷ p.output_commitment1
          ∷ (replicate (length p.input_nullifiers) p.asp_membership_root
              ++ replicate (length p.input_nullifiers) p.asp_non_membership_root))

module _ {L : Type 0} where
  unfoldable pub validate_bn256_public_input : U256 → U256 → M L ⊤
  validate_bn256_public_input value modulus =
      fail_if (leb modulus value) Error.non_canonical_public_input

  unfoldable pub validate_nullifiers : List U256 → U256 → M L ⊤
  unfolding validate_bn256_public_input
  validate_nullifiers [] modulus = skip
  validate_nullifiers (n ∷ ns) modulus = do
    validate_bn256_public_input n modulus
    validate_nullifiers ns modulus

  unfoldable pub validate_bn256_public_inputs : Proof → U256 → M L ⊤
  unfolding validate_bn256_public_input
  validate_bn256_public_inputs p modulus = do
    validate_bn256_public_input p.root modulus
    validate_bn256_public_input p.public_amount modulus
    validate_nullifiers p.input_nullifiers modulus
    validate_bn256_public_input p.output_commitment0 modulus
    validate_bn256_public_input p.output_commitment1 modulus
    validate_bn256_public_input p.asp_membership_root modulus
    validate_bn256_public_input p.asp_non_membership_root modulus

  unfoldable pub verify_proof : Env L → Proof → M L Bool
  unfolding get_verifier
  verify_proof env p = do
    fail_if (is_empty p.proof) Error.invalid_proof
    verifier ← get_verifier
    validate_bn256_public_inputs p bn256_modulus
    or_trap (env.host.verify verifier p.proof (public_inputs p))
