-- ===== src/Pool/Amounts/Laws.antt =====
-- The public amount determines the external amount, and is its residue in the field.
use paymage.Base.{ℕ, ℤ, pos, negsuc, suc, pos_part, neg_part, ◌+◌, ◌-◌, ◌%◌, ◌^◌, ◌≡◌, ◌<◌, arith}
use paymage.Host.Outcome.{ok}
use paymage.Poseidon.{bn256_modulus, InField}
use paymage.Pool.State.{World}
use paymage.Pool.Amounts.Defs.{calculate_public_amount}

module _ {L : Type 0} (w : World L) where
  -- An amount of magnitude below 2^248 has a public amount, which is a canonical field element and
  -- is congruent to it: adding the negative part gives the positive part, modulo the field.
  pub calculate_public_amount_lem :
      (v : ℤ)
      → pos_part v + neg_part v < 2 ^ 248
      → (r : ℕ) × (calculate_public_amount v w ≡ ok r w)
        × InField r
        × ((r + neg_part v) % bn256_modulus ≡ pos_part v)
  unfolding calculate_public_amount
  calculate_public_amount_lem (pos n) h = (n, ground arith, omega arith, omega arith)
  calculate_public_amount_lem (negsuc n) h =
      (bn256_modulus - suc n, ground arith, omega arith, omega arith)
