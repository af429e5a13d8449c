-- ===== src/Groth16/Defs.antt =====
-- The contract, over the host's curve operations. The key's bytes are constants that the build
-- writes, so that they are a parameter.
use paymage.Base.{
  ℕ, zero, suc, ◌+◌, ◌^◌, ◌==◌, not, ltb, Bool, true, false, Option, none, some, List, [], ◌∷◌, map,
  length, get_elem?, if◌then◌else◌,
}
use paymage.Host.Outcome.{Action, ⊤, ok_or, or_trap, fail, fail_if, pure, ◌>>=◌, ◌>>◌}
use paymage.Host.Interface.{U256, Bytes}

-- `Groth16Error`, from 0 on.
pub data Error : Type 0 where
  invalid_proof malformed_public_inputs malformed_proof : Error

-- The contract reads and writes no storage.
abbrev pub M : Type 0 → Type 0
M A = Action ⊤ Error A

-- The host's functions on the two groups; `none` is a trap.
pub record Curve (G₁ G₂ : Type 0) : Type 0 where
  pub g1_from_bytes : Bytes → G₁
  pub g2_from_bytes : Bytes → G₂
  pub g1_neg : G₁ → Option G₁
  pub g1_mul : G₁ → U256 → Option G₁
  pub g1_add : G₁ → G₁ → Option G₁
  pub pairing_check : List G₁ → List G₂ → Option Bool

-- `VerificationKeyBytes`, and the constants `VK_ALPHA_G1` and so on.
pub record VerificationKeyBytes : Type 0 where
  pub alpha : Bytes
  pub beta : Bytes
  pub gamma : Bytes
  pub delta : Bytes
  pub ic : List Bytes

pub record VerificationKey (G₁ G₂ : Type 0) : Type 0 where
  pub alpha : G₁
  pub beta : G₂
  pub gamma : G₂
  pub delta : G₂
  pub ic : List G₁

-- `Groth16Proof`, as points.
pub record Points (G₁ G₂ : Type 0) : Type 0 where
  pub a : G₁
  pub b : G₂
  pub c : G₁

-- `x.checked_add(1)` on 32 bits.
abbrev pub checked_next : ℕ → Option ℕ
checked_next x = if ltb (x + 1) (2 ^ 32) then some (x + 1) else none

abbrev pub is_some_of : Option ℕ → ℕ → Bool
is_some_of none n = false
is_some_of (some m) n = m == n

module _ {G₁ G₂ : Type 0} (curve : Curve G₁ G₂) where
  -- `embedded_vk`; `verification_key_from_bytes` is the same on given bytes.
  unfoldable pub embedded_vk : VerificationKeyBytes → VerificationKey G₁ G₂
  embedded_vk vk_bytes = record {
    alpha = curve.g1_from_bytes vk_bytes.alpha;
    beta = curve.g2_from_bytes vk_bytes.beta;
    gamma = curve.g2_from_bytes vk_bytes.gamma;
    delta = curve.g2_from_bytes vk_bytes.delta;
    ic = map curve.g1_from_bytes vk_bytes.ic;
  }

  -- for i in i..(i + n)
  unfoldable pub add_inputs : List G₁ → List U256 → ℕ → ℕ → G₁ → M G₁
  add_inputs ic pub_inputs zero i vk_x = pure vk_x
  add_inputs ic pub_inputs (suc n) i vk_x = do
    s ← ok_or (get_elem? pub_inputs i) Error.malformed_public_inputs
    ic_idx ← ok_or (checked_next i) Error.malformed_public_inputs
    v ← ok_or (get_elem? ic ic_idx) Error.malformed_public_inputs
    prod ← or_trap (curve.g1_mul v s)
    vk_x' ← or_trap (curve.g1_add vk_x prod)
    add_inputs ic pub_inputs n (suc i) vk_x'

  unfoldable pub verify_with_vk : VerificationKey G₁ G₂ → Points G₁ G₂ → List U256 → M Bool
  verify_with_vk vk proof pub_inputs = do
    fail_if (not (is_some_of (checked_next (length pub_inputs)) (length vk.ic)))
        Error.malformed_public_inputs
    ic₀ ← ok_or (get_elem? vk.ic 0) Error.malformed_public_inputs
    vk_x ← add_inputs vk.ic pub_inputs (length pub_inputs) 0 ic₀
    neg_a ← or_trap (curve.g1_neg proof.a)
    holds ← or_trap (
        curve.pairing_check (neg_a ∷ vk.alpha ∷ vk_x ∷ proof.c ∷ [])
          (proof.b ∷ vk.beta ∷ vk.gamma ∷ vk.delta ∷ []))
    if holds then pure true else fail Error.invalid_proof

  unfoldable pub verify : VerificationKeyBytes → Points G₁ G₂ → List U256 → M Bool
  verify vk_bytes proof public_inputs = verify_with_vk (embedded_vk vk_bytes) proof public_inputs
