-- ===== src/Pool/Amounts/Defs.antt =====
-- `calculate_public_amount` and the conversions of I256 (contracts/pool/src/pool.rs).
use paymage.Base.{
  ℕ, ℤ, pos, negsuc, suc, ◌-◌, ◌*◌, ◌^◌, Option, none, some, ltb, leb, if◌then◌else◌,
}
use paymage.Host.Outcome.{ok_or, or_trap, fail_if, fail, pure, ◌>>=◌, ◌>>◌}
use paymage.Host.Interface.{U256, i128_max}
use paymage.Poseidon.{bn256_modulus}
use paymage.Pool.State.{Error, M}

-- 2^248
abbrev pub max_ext_amount : ℕ
max_ext_amount = 0x0100_0000_0000_0000 * 2 ^ 192

-- `zero.sub(v)` on I256, which traps on the least integer.
abbrev pub negate : ℕ → Option ℕ
negate n = if ltb n (2 ^ 255) then some n else none

module _ {L : Type 0} where
  unfoldable pub i256_abs_to_u256 : ℤ → M L U256
  i256_abs_to_u256 (pos n) = pure n
  i256_abs_to_u256 (negsuc n) = or_trap (negate (suc n))

  unfoldable pub i256_to_i128_nonneg : ℤ → M L ℕ
  i256_to_i128_nonneg (pos n) =
      ok_or (if leb n i128_max then some n else none) Error.wrong_ext_amount
  i256_to_i128_nonneg (negsuc n) = fail Error.wrong_ext_amount

  -- The amount itself, or the modulus less its magnitude.
  unfoldable pub in_field : ℤ → M L U256
  in_field (pos n) = pure n
  in_field (negsuc n) = do
    neg ← or_trap (negate (suc n))
    or_trap (if leb neg bn256_modulus then some (bn256_modulus - neg) else none)

  unfoldable pub calculate_public_amount : ℤ → M L U256
  unfolding i256_abs_to_u256 in_field
  calculate_public_amount ext_amount = do
    abs_ext ← i256_abs_to_u256 ext_amount
    fail_if (leb max_ext_amount abs_ext) Error.wrong_ext_amount
    in_field ext_amount
