-- ===== src/Poseidon/Sample.antt =====
-- A concrete permutation at which the assumptions on the hash hold: it sends the hash of each empty
-- subtree to that of the next level, and mixes its inputs otherwise.
use paymage.Base.{
  ℕ, zero, suc, ◌+◌, ◌*◌, ◌-◌, ◌%◌, ◌<◌, ◌≡◌, ◌==◌, if◌then◌else◌, Bool, true, false, ◌&&◌, Option,
  none, some, List, [], ◌∷◌, get_elem?, refl, arith, Bool-cases, inl, inr,
}
use paymage.Host.Interface.{U256}
use paymage.Poseidon.Defs.{bn256_modulus, hash, zero_at}
use paymage.Poseidon.Zeroes.{get_zeroes}
use paymage.Poseidon.Laws.{Permutes, IsZeroTable}

-- The entry behind `x` in the list.
abbrev next_of : U256 → List U256 → Option U256
next_of x [] = none
next_of x (y ∷ ys) = if x == y then get_elem? ys 0 else next_of x ys

unfoldable pub perm : U256 → U256 → U256
unfolding hash
perm l r = elim (next_of l get_zeroes) [
  | none ↦ (3 * l + 7 * r + 1) % bn256_modulus
  | some z ↦ (z + bn256_modulus - l) % bn256_modulus
]

pub perm-Permutes : Permutes perm
unfolding perm
perm-Permutes l r = ground arith

same : Option U256 → U256 → Bool
same none x = false
same (some y) x = y == x

table_holds : ℕ → Bool
table_holds zero = true
table_holds (suc n) = same (get_elem? get_zeroes n) (zero_at perm n) && table_holds n

same-some : (o : Option U256) (x : U256) → same o x ≡ true → o ≡ some x
unfolding same
same-some none x h = cc
same-some (some y) x h = ground arith

table_holds_33 : table_holds 33 ≡ true
unfolding table_holds same perm zero_at get_zeroes
table_holds_33 = refl

table_holds_below :
    (n i : ℕ) → table_holds n ≡ true → i < n → get_elem? get_zeroes i ≡ some (zero_at perm i)
unfolding table_holds
table_holds_below zero i h lt = absurd (omega arith)
table_holds_below (suc n) i h lt = elim (Bool-cases (i == n)) [
  | inl now ↦
      let e : i ≡ n = ground arith in
      rw e (same-some (get_elem? get_zeroes n) (zero_at perm n) (ground arith))
  | inr later ↦ table_holds_below n i (ground arith) (ground arith)
]

pub perm-IsZeroTable : IsZeroTable perm
perm-IsZeroTable i lt = table_holds_below 33 i table_holds_33 lt
