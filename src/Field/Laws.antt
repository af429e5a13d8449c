-- ===== src/Field/Laws.antt =====
-- The client's field elements against the contracts' ones, and their arithmetic.
use paymage.Base.{ℕ, suc, ◌-◌, ◌^◌, ◌≡◌, ◌≤◌, some, pos, negsuc, pos_part, neg_part, arith}
use paymage.Host.Outcome.{ok}
use paymage.Host.Interface.{i128_max}
use paymage.Poseidon.{bn256_modulus}
use paymage.Planner.Amounts.{ExtAmount}
use paymage.Pool.State.{World}
use paymage.Pool.Amounts.Defs.{calculate_public_amount}
use paymage.Field.Defs.{bn254_prime, from_ext}

-- The client and the pool contract map every external amount, an i128, to the same field element:
-- neither fails, and what the client computes is the public amount that the contract checks.
pub from_ext-calculate_public_amount :
    {L : Type 0} (w : World L) (v : ExtAmount)
    → pos_part v ≤ i128_max
    → neg_part v ≤ 2 ^ 127
    → (r : ℕ) × (from_ext v ≡ some r) × (calculate_public_amount v w ≡ ok r w)
unfolding from_ext calculate_public_amount bn254_prime
from_ext-calculate_public_amount w (pos n) h k = (n, ground arith, ground arith)
from_ext-calculate_public_amount w (negsuc n) h k =
    (bn256_modulus - suc n, ground arith, ground arith)
