-- ===== src/Groth16/Correct.antt =====
-- What the contract answers, by an independent description of the sum over the public inputs.
use paymage.Base.{
  ℕ, suc, ◌+◌, ◌^◌, ◌≡◌, ◌≢◌, ◌<◌, ◌==◌, Bool, true, false, Option, none, some, List, [], ◌∷◌, map,
  length, get_elem?, if◌then◌else◌, arith, refl, ap, Option-cases, Bool-cases, inl, inr,
}
use paymage.Host.Outcome.{Outcome, ok, err, trap, ⊤, or_trap, pure, fail, ◌>>=◌}
use paymage.Host.Interface.{U256, Bytes}
use paymage.Groth16.Defs.{
  Error, Curve, VerificationKeyBytes, VerificationKey, Points, checked_next, is_some_of,
  embedded_vk, add_inputs, verify_with_vk, verify,
}

module _ {G₁ G₂ : Type 0} (curve : Curve G₁ G₂) where
  -- The sum of the points, each times its input, added to `acc`; `none` where the host traps.
  abbrev pub combine : G₁ → List G₁ → List U256 → Option G₁
  combine acc [] inputs = some acc
  combine acc (v ∷ vs) [] = some acc
  combine acc (v ∷ vs) (s ∷ ss) = elim (curve.g1_mul v s) [
    | none ↦ none
    | some prod ↦ elim (curve.g1_add acc prod) [ none ↦ none | some acc' ↦ combine acc' vs ss ]
  ]

  -- The pairing equation of Groth16 holds, or not; `none` where the host traps.
  abbrev pub is_valid : VerificationKey G₁ G₂ → Points G₁ G₂ → G₁ → Option Bool
  is_valid vk p x = elim (curve.g1_neg p.a) [
    | none ↦ none
    | some neg_a ↦
        curve.pairing_check (neg_a ∷ vk.alpha ∷ x ∷ p.c ∷ [])
          (p.b ∷ vk.beta ∷ vk.gamma ∷ vk.delta ∷ [])
  ]

  abbrev pub outcome_of : Option Bool → Outcome ⊤ Error Bool
  outcome_of none = trap
  outcome_of (some true) = ok true tt
  outcome_of (some false) = err Error.invalid_proof

  abbrev pub sum_outcome : Option G₁ → Outcome ⊤ Error G₁
  sum_outcome none = trap
  sum_outcome (some x) = ok x tt

  add_inputs-combine :
      (ic : List G₁) (inputs : List U256) (vs : List G₁) (ss : List U256) (i : ℕ) (acc : G₁)
      → ((j : ℕ) → get_elem? inputs (i + j) ≡ get_elem? ss j)
      → ((j : ℕ) → get_elem? ic (suc (i + j)) ≡ get_elem? vs j)
      → length vs ≡ length ss
      → i + length ss < 2 ^ 32
      → add_inputs curve ic inputs (length ss) i acc tt ≡ sum_outcome (combine acc vs ss)
  unfolding add_inputs
  add_inputs-combine ic inputs [] [] i acc hs hv e small = refl
  add_inputs-combine ic inputs [] (s ∷ ss) i acc hs hv e small = absurd (omega arith)
  add_inputs-combine ic inputs (v ∷ vs) [] i acc hs hv e small = absurd (omega arith)
  add_inputs-combine ic inputs (v ∷ vs) (s ∷ ss) i acc hs hv e small =
      let at : i + 0 ≡ i = omega arith in
      let s_here : get_elem? inputs i ≡ some s = rw at at (hs 0) in
      let v_here : get_elem? ic (suc i) ≡ some v = rw at at (hv 0) in
      let next : checked_next i ≡ some (suc i) = ground arith in
      let hs' : (j : ℕ) → get_elem? inputs (suc i + j) ≡ get_elem? ss j =
        λ j. let q : suc i + j ≡ i + suc j = omega arith in rw q (hs (suc j)) in
      let hv' : (j : ℕ) → get_elem? ic (suc (suc i + j)) ≡ get_elem? vs j =
        λ j. let q : suc i + j ≡ i + suc j = omega arith in rw q (hv (suc j)) in
      let rest = λ (acc' : G₁).
        add_inputs-combine ic inputs vs ss (suc i) acc' hs' hv' (omega arith) (omega arith) in
      rw (s_here, next, v_here)
        (elim (Option-cases (curve.g1_mul v s)) [
          | inl traps ↦ rw (combine, traps) refl
          | inr (prod, multiplied) ↦
              rw (combine, multiplied)
                (elim (Option-cases (curve.g1_add acc prod)) [
                  | inl traps ↦ rw (combine, traps) refl
                  | inr (acc', added) ↦ rw (combine, added) (rest acc')
                ])
        ])

  verdict :
      (o : Option Bool)
      → (or_trap o >>= λ holds. if holds then pure true else fail Error.invalid_proof) tt
        ≡ outcome_of o
  verdict none = refl
  verdict (some true) = refl
  verdict (some false) = refl

  -- After the sum, the rest of the check.
  finish :
      (vk : VerificationKey G₁ G₂) (p : Points G₁ G₂) (inputs : List U256) (ic₀ : G₁)
      (rest : List G₁)
      → vk.ic ≡ ic₀ ∷ rest
      → length rest ≡ length inputs
      → length inputs + 1 < 2 ^ 32
      → verify_with_vk curve vk p inputs tt
        ≡ elim (combine ic₀ rest inputs) [ none ↦ trap | some x ↦ outcome_of (is_valid vk p x) ]
  unfolding verify_with_vk
  finish vk p inputs ic₀ rest e same small =
      let sized : is_some_of (checked_next (length inputs)) (length vk.ic) ≡ true =
        rw e (ground arith) in
      let zero_th : get_elem? vk.ic 0 ≡ some ic₀ = ap (λ xs. get_elem? xs 0) e in
      let sum : add_inputs curve vk.ic inputs (length inputs) 0 ic₀ tt
          ≡ sum_outcome (combine ic₀ rest inputs) =
        rw e (
          add_inputs-combine (ic₀ ∷ rest) inputs rest inputs 0 ic₀
            (λ j. let q : 0 + j ≡ j = omega arith in ap (get_elem? inputs) q)
            (λ j. let q : 0 + j ≡ j = omega arith in ap (get_elem? rest) q) same (omega arith)) in
      let pairing = λ (neg_a x : G₁).
        curve.pairing_check (neg_a ∷ vk.alpha ∷ x ∷ p.c ∷ [])
          (p.b ∷ vk.beta ∷ vk.gamma ∷ vk.delta ∷ []) in
      rw (sized, zero_th, ◌>>=◌, sum)
        (elim (Option-cases (combine ic₀ rest inputs)) [
          | inl traps ↦ rw traps refl
          | inr (x, summed) ↦ rw summed (elim (Option-cases (curve.g1_neg p.a)) [
            | inl traps ↦ rw (is_valid, traps) refl
            | inr (neg_a, negated) ↦ rw (is_valid, negated) (verdict (pairing neg_a x))
          ])
        ])

  -- The answer for a key and a proof: the inputs must be one fewer than the key's points.
  abbrev pub answer :
      VerificationKey G₁ G₂ → List G₁ → Points G₁ G₂ → List U256 → Outcome ⊤ Error Bool
  answer vk [] p inputs = err Error.malformed_public_inputs
  answer vk (ic₀ ∷ rest) p inputs =
      if length inputs == length rest
      then elim (combine ic₀ rest inputs) [ none ↦ trap | some x ↦ outcome_of (is_valid vk p x) ]
      else err Error.malformed_public_inputs

  wrong_number :
      (vk : VerificationKey G₁ G₂) (p : Points G₁ G₂) (inputs : List U256)
      → length vk.ic < 2 ^ 32
      → length inputs + 1 ≢ length vk.ic
      → verify_with_vk curve vk p inputs tt ≡ err Error.malformed_public_inputs
  unfolding verify_with_vk
  wrong_number vk p inputs small other =
      let sized : is_some_of (checked_next (length inputs)) (length vk.ic) ≡ false =
        ground (arith, other) in
      rw sized refl

  verify_with_vk-answer :
      (vk : VerificationKey G₁ G₂) (p : Points G₁ G₂) (inputs : List U256) (ic : List G₁)
      → vk.ic ≡ ic
      → length ic < 2 ^ 32
      → verify_with_vk curve vk p inputs tt ≡ answer vk ic p inputs
  verify_with_vk-answer vk p inputs [] e small =
      let count : length vk.ic ≡ 0 = ap length e in
      wrong_number vk p inputs (omega arith) (ground arith)
  verify_with_vk-answer vk p inputs (ic₀ ∷ rest) e small =
      let count : length vk.ic ≡ suc (length rest) = ap length e in
      elim (Bool-cases (length inputs == length rest)) [
        | inl same ↦ rw same (finish vk p inputs ic₀ rest e (ground arith) (ground arith))
        | inr other ↦ rw other (wrong_number vk p inputs (omega arith) (ground arith))
      ]

  length-map : (bytes : List Bytes) → length (map curve.g1_from_bytes bytes) ≡ length bytes
  length-map [] = refl
  length-map (b ∷ bs) = ap suc (length-map bs)

  -- With an embedded key of fewer than 2^32 points: where the public inputs are not one fewer than
  -- these, `verify` returns `MalformedPublicInputs`. Otherwise it returns true exactly when the
  -- pairing equation of Groth16 holds of the proof and of the sum of the points, each times its input,
  -- and `InvalidProof` when it does not hold; it traps where the host's curve operations do.
  pub verify-answer :
      (vk_bytes : VerificationKeyBytes) (p : Points G₁ G₂) (inputs : List U256)
      → length vk_bytes.ic < 2 ^ 32
      → verify curve vk_bytes p inputs tt
        ≡ answer (embedded_vk curve vk_bytes) (map curve.g1_from_bytes vk_bytes.ic) p inputs
  unfolding verify embedded_vk
  verify-answer vk_bytes p inputs small =
      verify_with_vk-answer (embedded_vk curve vk_bytes) p inputs
        (map curve.g1_from_bytes vk_bytes.ic) refl (omega (arith, length-map vk_bytes.ic))
