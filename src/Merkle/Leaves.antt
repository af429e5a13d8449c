-- ===== src/Merkle/Leaves.antt =====
-- The bottom level of a tree, and how it changes as leaves are appended.
use paymage.Base.{
  ℕ, zero, suc, ◌+◌, ◌*◌, ◌/◌, ◌%◌, ◌^◌, ◌≡◌, ◌<◌, ◌≤◌, ◌==◌, if◌then◌else◌, refl, List, [], ◌∷◌,
  ◌++◌, get_or, length, All, arith, fun_ext,
}
use paymage.Host.Interface.{U256}
use paymage.Poseidon.{hash, zero_at, InField, Permutes, zero_at_lt}
use paymage.Merkle.Spec.{update, halve, up, leaf_level}
use paymage.Merkle.Incremental.{LevelInField, Blank}
use native.Mathlib.Nat.{pow-suc}

get_or-past : (xs : List ℕ) (i d : ℕ) → length xs ≤ i → get_or xs i d ≡ d
get_or-past [] i d h = refl
get_or-past (x ∷ xs) zero d h = absurd (omega arith)
get_or-past (x ∷ xs) (suc i) d h = get_or-past xs i d (omega arith)

-- The element at an index after `a` and `b` are appended.
get_or-append_two :
    (xs : List ℕ) (a b i d : ℕ)
    → get_or (xs ++ a ∷ b ∷ []) i d
      ≡ (if i == length xs + 1 then b else if i == length xs then a else get_or xs i d)
get_or-append_two [] a b zero d = ground arith
get_or-append_two [] a b (suc zero) d = ground arith
get_or-append_two [] a b (suc (suc i)) d = ground arith
get_or-append_two (x ∷ xs) a b zero d = ground arith
get_or-append_two (x ∷ xs) a b (suc i) d = ground (arith, get_or-append_two xs a b i d)

get_or-append_one :
    (xs : List ℕ) (a i d : ℕ)
    → get_or (xs ++ a ∷ []) i d ≡ (if i == length xs then a else get_or xs i d)
get_or-append_one [] a zero d = ground arith
get_or-append_one [] a (suc i) d = ground arith
get_or-append_one (x ∷ xs) a zero d = ground arith
get_or-append_one (x ∷ xs) a (suc i) d = ground (arith, get_or-append_one xs a i d)

get_or-InField : (xs : List ℕ) (i d : ℕ) → All InField xs → InField d → InField (get_or xs i d)
get_or-InField [] i d h p = p
get_or-InField (x ∷ xs) zero d h p = h.0
get_or-InField (x ∷ xs) (suc i) d h p = get_or-InField xs i d h.1 p

pub halve-below : (k n : ℕ) → n < 2 ^ k → halve k n ≡ 0
unfolding halve
halve-below zero n h = omega arith
halve-below (suc k) n h = halve-below k (n / 2) (omega (arith, pow-suc 2 k))

module _ (perm : U256 → U256 → U256) (is_perm : Permutes perm) where
  pub leaf_level-LevelInField :
      (leaves : List U256) → All InField leaves → LevelInField perm is_perm (leaf_level perm leaves)
  unfolding leaf_level
  leaf_level-LevelInField leaves h i =
      get_or-InField leaves i (zero_at perm 0) h (zero_at_lt perm 0)

  pub leaf_level-Blank :
      (leaves : List U256) (n : ℕ)
      → length leaves ≤ n
      → Blank perm is_perm 0 n (leaf_level perm leaves)
  unfolding leaf_level
  leaf_level-Blank leaves n h i lt = get_or-past leaves i (zero_at perm 0) (omega arith)

  -- Appending a leaf puts it at the end of the level.
  pub leaf_level-append_one :
      (leaves : List U256) (a : U256)
      → leaf_level perm (leaves ++ a ∷ []) ≡ update (leaf_level perm leaves) (length leaves) a
  unfolding leaf_level
  leaf_level-append_one leaves a = fun_ext λ i. get_or-append_one leaves a i (zero_at perm 0)

  -- Appending two leaves to an even number puts their hash at the end of the level above.
  pub up-append_two :
      (leaves : List U256) (a b : U256)
      → length leaves % 2 ≡ 0
      → up perm (leaf_level perm (leaves ++ a ∷ b ∷ []))
        ≡ update (up perm (leaf_level perm leaves)) (length leaves / 2) (hash perm a b)
  unfolding leaf_level up
  up-append_two leaves a b even = fun_ext λ i. ground (
    arith,
    get_or-append_two leaves a b (2 * i) (zero_at perm 0),
    get_or-append_two leaves a b (2 * i + 1) (zero_at perm 0),
  )

  -- On an even number of leaves, the level above is blank from half of that on.
  pub up-Blank_even :
      (leaves : List U256)
      → length leaves % 2 ≡ 0
      → Blank perm is_perm 1 (length leaves / 2) (up perm (leaf_level perm leaves))
  unfolding leaf_level up zero_at
  up-Blank_even leaves even i lt = rw (
    get_or-past leaves (2 * i) (zero_at perm 0) (omega arith),
    get_or-past leaves (2 * i + 1) (zero_at perm 0) (omega arith),
  )
