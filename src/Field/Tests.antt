-- ===== src/Field/Tests.antt =====
-- The client's field elements at concrete amounts.
use paymage.Base.{ℕ, ◌-◌, ◌≡◌, some, none, negsuc, arith, refl}
use paymage.Host.Outcome.{ok}
use paymage.Host.Sample.{funds}
use paymage.Poseidon.{bn256_modulus}
use paymage.Pool.Amounts.Defs.{calculate_public_amount}
use paymage.Pool.Contract.Defs.{blank}
use paymage.Field.Defs.{bn254_prime, from_ext, to_note}
use paymage.Field.Laws.{from_ext-calculate_public_amount}

least_refused : to_note (negsuc 0) ≡ none
unfolding to_note
least_refused = refl

minus_one : from_ext (negsuc 0) ≡ some (bn256_modulus - 1)
unfolding from_ext bn254_prime
minus_one = refl

from_ext-calculate_public_amount_example :
    (r : ℕ) × (from_ext (negsuc 9) ≡ some r)
    × (calculate_public_amount (negsuc 9) (blank funds) ≡ ok r (blank funds))
from_ext-calculate_public_amount_example =
    from_ext-calculate_public_amount (blank funds) (negsuc 9) (omega arith) (omega arith)
