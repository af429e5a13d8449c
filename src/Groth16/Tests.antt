-- ===== src/Groth16/Tests.antt =====
-- The verifier over a toy curve: numbers, whose pairing is their product.
use paymage.Base.{ℕ, ◌+◌, ◌-◌, ◌*◌, ◌%◌, ◌==◌, ◌≡◌, true, some, List, [], ◌∷◌, map, arith, refl}
use paymage.Host.Outcome.{ok, err}
use paymage.Host.Interface.{Bytes}
use paymage.Groth16.Defs.{
  Error, Curve, VerificationKeyBytes, Points, embedded_vk, add_inputs, verify_with_vk, verify,
}
use paymage.Groth16.Correct.{answer, verify-answer}

abbrev first : Bytes → ℕ
first [] = 0
first (b ∷ bs) = b

abbrev products : List ℕ → List ℕ → ℕ
products [] ys = 0
products (x ∷ xs) [] = 0
products (x ∷ xs) (y ∷ ys) = x * y + products xs ys

abbrev curve : Curve ℕ ℕ
curve = record {
  g1_from_bytes = first;
  g2_from_bytes = first;
  g1_neg = λ x. some (101 - x);
  g1_mul = λ x s. some ((x * s) % 101);
  g1_add = λ x y. some ((x + y) % 101);
  pairing_check = λ xs ys. some (products xs ys % 101 == 0);
}

abbrev key : VerificationKeyBytes
key = record {
  alpha = 2 ∷ [];
  beta = 3 ∷ [];
  gamma = 1 ∷ [];
  delta = 1 ∷ [];
  ic = (5 ∷ []) ∷ (7 ∷ []) ∷ (11 ∷ []) ∷ [];
}

-- 2 · 3 + (5 + 7 · 2 + 11 · 3) + 4 = 62
abbrev good : Points ℕ ℕ
good = record { a = 62; b = 1; c = 4 }

accepted : verify curve key good (2 ∷ 3 ∷ []) tt ≡ ok true tt
unfolding verify embedded_vk verify_with_vk add_inputs
accepted = refl

other_input_refused : verify curve key good (2 ∷ 4 ∷ []) tt ≡ err Error.invalid_proof
unfolding verify embedded_vk verify_with_vk add_inputs
other_input_refused = refl

one_input_refused : verify curve key good (2 ∷ []) tt ≡ err Error.malformed_public_inputs
unfolding verify embedded_vk verify_with_vk add_inputs
one_input_refused = refl

verify-answer_example :
    verify curve key good (2 ∷ 3 ∷ []) tt
    ≡ answer curve (embedded_vk curve key) (map curve.g1_from_bytes key.ic) good (2 ∷ 3 ∷ [])
verify-answer_example = verify-answer curve key good (2 ∷ 3 ∷ []) (omega arith)
