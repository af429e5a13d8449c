-- ===== src/Prover/Merkle/Siblings.antt =====
-- The path from a leaf to the root in a level of the tree: its siblings, and the bits of its index.
use paymage.Base.{
  ℕ, zero, suc, ◌+◌, ◌-◌, ◌*◌, ◌/◌, ◌%◌, ◌^◌, ◌≡◌, ◌<◌, ◌==◌, false, List, [], ◌∷◌, arith, refl, ap,
  ◌∙◌, Bool-cases, inl, inr, if◌then◌else◌,
}
use native.Mathlib.Nat.{pow-suc, mul-add, mul_assoc, div-lt_iff_lt-mul}
use paymage.Host.Interface.{U256}
use paymage.Poseidon.{hash}
use paymage.Merkle.Spec.{Level, up, ascend}
use paymage.Prover.Merkle.Defs.{sibling_of, set_bit}

-- The bits of an index above those that are set already.
set_bit-above :
    (level bits : ℕ) → 0 < 2 ^ level → bits < 2 ^ level → set_bit level bits ≡ bits + 2 ^ level
set_bit-above level bits positive h =
    let x = 2 ^ level in
    let q : bits / x < 1 =
      (div-lt_iff_lt-mul {k = x} {x = bits} {y = 1} positive).1 (omega arith) in
    let zero_bit : (bits / x) % 2 ≡ 0 = omega (arith, q) in
    let test : ((bits / x) % 2 == 1) ≡ false = ground arith in rw test refl

pub pow_pos : (k : ℕ) → 0 < 2 ^ k
pow_pos zero = omega arith
pow_pos (suc k) = omega (arith, pow_pos k, pow-suc 2 k)

-- One more bit of an index.
pub bits-step :
    (level bits c : ℕ)
    → bits < 2 ^ level
    → (b : ℕ) × ((if c % 2 == 0 then bits else set_bit level bits) ≡ b)
      × (b < 2 ^ suc level)
      × (b + 2 ^ suc level * (c / 2) ≡ bits + 2 ^ level * c)
bits-step level bits c h =
    let x = 2 ^ level in
    let q = c / 2 in
    let double : 2 ^ suc level ≡ 2 * x = omega (arith, pow-suc 2 level) in
    let half : 2 ^ suc level * q ≡ x * q + x * q = rw (double, mul_assoc 2 x q) (omega arith) in
    elim (Bool-cases (c % 2 == 0)) [
      | inl even ↦
          let e : c ≡ q + q = ground arith in
          let all : x * c ≡ x * q + x * q = ap (x *◌) e ∙ mul-add x q q in
          (bits, rw even refl, omega (arith, double), omega (arith, half, all))
      | inr odd ↦
          let e : c ≡ (q + q) + 1 = ground arith in
          let all : x * c ≡ x * q + x * q + x =
            ap (x *◌) e ∙ mul-add x (q + q) 1 ∙ (rw (mul-add x q q) (omega arith)) in
          (
            bits + x,
            rw odd (set_bit-above level bits (pow_pos level) h),
            omega (arith, double),
            omega (arith, half, all),
          )
    ]

module _ (perm : U256 → U256 → U256) where
  -- The root that a leaf at an index has with these siblings, the lowest first: an even index stands
  -- on the left.
  unfoldable pub recompute : List U256 → ℕ → U256 → U256
  recompute [] index node = node
  recompute (s ∷ ss) index node =
      recompute ss (index / 2) (if index % 2 == 0 then hash perm node s else hash perm s node)

  -- Joining a node of a level and its sibling gives the node above.
  up-half :
      (f : Level) (i : ℕ)
      → (if i % 2 == 0
          then hash perm (f i) (f (sibling_of i))
          else hash perm (f (sibling_of i)) (f i))
        ≡ up perm f (i / 2)
  unfolding up
  up-half f i = elim (Bool-cases (i % 2 == 0)) [
    | inl even ↦ let a : 2 * (i / 2) ≡ i = ground arith in rw (even, a) refl
    | inr odd ↦
        let a : 2 * (i / 2) ≡ i - 1 = ground arith in
        let b : 2 * (i / 2) + 1 ≡ i = ground arith in rw (odd, b, a) refl
  ]

  -- The siblings on the path from an index of a level to the node so many levels above.
  unfoldable pub siblings : ℕ → Level → ℕ → List U256
  siblings zero f i = []
  siblings (suc k) f i = f (sibling_of i) ∷ siblings k (up perm f) (i / 2)

  pub recompute-siblings :
      (k : ℕ) (f : Level) (i : ℕ)
      → i < 2 ^ k
      → recompute (siblings k f i) i (f i) ≡ ascend perm k f 0
  unfolding siblings recompute ascend
  recompute-siblings zero f i h = ap f (omega arith)
  recompute-siblings (suc k) f i h =
      ap (recompute (siblings k (up perm f) (i / 2)) (i / 2)) (up-half f i)
      ∙ recompute-siblings k (up perm f) (i / 2) (omega (arith, pow-suc 2 k))
