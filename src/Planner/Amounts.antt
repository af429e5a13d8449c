-- ===== src/Planner/Amounts.antt =====
-- `NoteAmount` and `ExtAmount` (app/crates/core/types/src/amounts.rs): a u128 and an i128, with
-- checked arithmetic.
use paymage.Base.{
  ℕ, zero, suc, ◌+◌, ◌-◌, ◌^◌, Option, none, some, ltb, leb, if◌then◌else◌, ℤ, pos, negsuc,
}
use paymage.Host.Interface.{i128_max}

abbrev pub u128_max : ℕ
u128_max = 2 ^ 128 - 1

abbrev pub NoteAmount : Type 0
NoteAmount = ℕ

unfoldable pub checked_add : NoteAmount → NoteAmount → Option NoteAmount
checked_add a b = if ltb u128_max (a + b) then none else some (a + b)

unfoldable pub checked_sub : NoteAmount → NoteAmount → Option NoteAmount
checked_sub a b = if ltb a b then none else some (a - b)

abbrev pub ExtAmount : Type 0
ExtAmount = ℤ

-- `ExtAmount::try_from`; `none` is its error.
unfoldable pub to_ext : NoteAmount → Option ExtAmount
to_ext value = if ltb i128_max value then none else some (pos value)

-- `none` at -2^127, whose negation is no i128.
unfoldable pub checked_neg : ExtAmount → Option ExtAmount
checked_neg (pos zero) = some (pos zero)
checked_neg (pos (suc n)) = some (negsuc n)
checked_neg (negsuc n) = if leb i128_max n then none else some (pos (suc n))
