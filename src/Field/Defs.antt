-- ===== src/Field/Defs.antt =====
-- `Field` and its conversions from amounts. The integers of 256 bits come with checked arithmetic,
-- and a failed `expect` is a panic, written `none` as an error is.
use paymage.Base.{
  ℕ, suc, ◌+◌, ◌-◌, ◌*◌, ◌^◌, Option, none, some, ltb, leb, if◌then◌else◌, pos, negsuc,
}
use paymage.Host.Interface.{U256}
use paymage.Planner.Amounts.{NoteAmount, ExtAmount}

-- The value of four limbs, the least one first.
abbrev pub of_limbs : ℕ → ℕ → ℕ → ℕ → U256
of_limbs a b c d = a + 2 ^ 64 * (b + 2 ^ 64 * (c + 2 ^ 64 * d))

unfoldable pub bn254_prime : U256
bn254_prime = of_limbs 0x43e1f593f0000001 0x2833e84879b97091 0xb85045b68181585d 0x30644e72e131a029

unfoldable pub try_from_u256 : U256 → Option U256
try_from_u256 v = if leb bn254_prime v then none else some v

abbrev pub from_note : NoteAmount → U256
from_note value = value

-- `u256.checked_add(rhs)`
abbrev pub checked_add_u256 : U256 → U256 → Option U256
checked_add_u256 a b = if ltb (a + b) (2 ^ 256) then some (a + b) else none

-- The amount, or the modulus less its magnitude.
unfoldable pub from_ext : ExtAmount → Option U256
from_ext (pos n) = if leb bn254_prime n then none else some n
from_ext (negsuc n) = if leb bn254_prime (suc n) then none else some (bn254_prime - suc n)

-- `Field + Field`
unfoldable pub add : U256 → U256 → Option U256
add a b = elim (checked_add_u256 a b) [
  | none ↦ none
  | some v ↦ some (if leb bn254_prime v then v - bn254_prime else v)
]

-- `Field - Field`
unfoldable pub sub : U256 → U256 → Option U256
sub a b =
    if leb b a
    then some (a - b)
    else if leb (b - a) bn254_prime
    then some (bn254_prime - (b - a))
    else none

-- `NoteAmount::try_from(ExtAmount)`
unfoldable pub to_note : ExtAmount → Option NoteAmount
to_note (pos n) = some n
to_note (negsuc n) = none
