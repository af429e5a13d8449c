-- ===== src/NonMembership/Bits.antt =====
-- A key is known by its bits.
use paymage.Base.{
  ℕ, zero, suc, ◌-◌, ◌/◌, ◌%◌, ◌^◌, ◌==◌, ◌≡◌, ◌<◌, Bool, some, List, [], ◌∷◌, length, get_elem?,
  arith, refl, ap,
}
use native.Mathlib.Nat.{pow-suc}
use paymage.Host.Interface.{U256}
use paymage.NonMembership.Defs.{split_from, split_bits}
use paymage.NonMembership.Insert.{common_from}

-- The list from an index on.
abbrev pub from : ℕ → List Bool → List Bool
from zero xs = xs
from (suc n) [] = []
from (suc n) (x ∷ xs) = from n xs

pub from-tail :
    (n : ℕ) (xs : List Bool) (b : Bool) (bs : List Bool) → from n xs ≡ b ∷ bs → from (suc n) xs ≡ bs
from-tail zero [] b bs e = cc
from-tail zero (x ∷ xs) b bs e = cc
from-tail (suc n) [] b bs e = cc
from-tail (suc n) (x ∷ xs) b bs e = from-tail n xs b bs e

pub from-get :
    (n : ℕ) (xs : List Bool) (b : Bool) → get_elem? xs n ≡ some b → from n xs ≡ b ∷ from (suc n) xs
from-get n [] b e = cc
from-get zero (x ∷ xs) b e = let q : x ≡ b = cc in ap (λ y. y ∷ xs) q
from-get (suc n) (x ∷ xs) b e = from-get n xs b e

-- The count of equal bits further on.
pub common_from-step :
    (level : ℕ) (xs : List Bool) (b : Bool) (bs : List Bool) (n : ℕ)
    → level < length xs
    → common_from (from level xs) (b ∷ bs) (suc n) ≡ common_from (from (suc level) xs) bs n
unfolding common_from
common_from-step level [] b bs n h = absurd (omega arith)
common_from-step zero (x ∷ xs) b bs n h = refl
common_from-step (suc level) (x ∷ xs) b bs n h = common_from-step level xs b bs n (omega arith)

split_from-injective : (n a b : ℕ) → a < 2 ^ n → b < 2 ^ n → split_from n a ≡ split_from n b → a ≡ b
unfolding split_from
split_from-injective zero a b ha hb e = omega arith
split_from-injective (suc n) a b ha hb e =
    let bit : (a % 2 == 1) ≡ (b % 2 == 1) = cc in
    let rest : split_from n (a / 2) ≡ split_from n (b / 2) = cc in
    let half : a / 2 ≡ b / 2 =
      split_from-injective n (a / 2) (b / 2) (omega (arith, pow-suc 2 n))
        (omega (arith, pow-suc 2 n)) rest in
    ground arith

-- Two keys of 256 bits with the same bits are equal.
pub split_bits-injective :
    (a b : U256) → a < 2 ^ 256 → b < 2 ^ 256 → split_bits a ≡ split_bits b → a ≡ b
unfolding split_bits
split_bits-injective a b ha hb e = split_from-injective 256 a b ha hb e

pub length-from : (n : ℕ) (xs : List Bool) → length (from n xs) ≡ length xs - n
length-from zero xs = omega arith
length-from (suc n) [] = omega arith
length-from (suc n) (x ∷ xs) = omega (arith, length-from n xs)

pub get-from :
    (n : ℕ) (xs : List Bool) (b : Bool) (bs : List Bool)
    → from n xs ≡ b ∷ bs
    → get_elem? xs n ≡ some b
get-from zero [] b bs e = cc
get-from zero (x ∷ xs) b bs e = let q : x ≡ b = cc in ap some q
get-from (suc n) [] b bs e = cc
get-from (suc n) (x ∷ xs) b bs e = get-from n xs b bs e
