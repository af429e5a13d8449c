-- ===== src/Registry/Tests.antt =====
-- The registry on concrete accounts, and each theorem at such an account.
use paymage.Base.{ℕ, zero, suc, ◌≡◌, true, List, [], ◌∷◌, empty, refl}
use paymage.Host.Outcome.{Outcome, ok}
use paymage.Host.Interface.{Auth}
use paymage.Registry.Defs.{Account, World, Error, register}
use paymage.Registry.Correct.{Registered, register-Registered}

abbrev auth : Auth
auth a = true

abbrev repeat : ℕ → ℕ → List ℕ
repeat zero x = []
repeat (suc n) x = x ∷ repeat n x

abbrev account : Account
account = record { owner = 4; encryption_key = repeat 32 1; note_key = repeat 32 2 }

abbrev short : Account
short = record { owner = 4; encryption_key = repeat 31 1; note_key = repeat 32 2 }

abbrev before : World
before = record { registration = empty; events = [] }

abbrev final : Outcome World Error Unit → World
final (ok a w) = w
final e = before

after : World
unfolding register
after = final (register auth account before)

register_ok : register auth account before ≡ ok tt after
unfolding after
register_ok = refl

register-Registered_example :
    (w' : World) × (register auth account before ≡ ok tt w') × Registered account before w'
register-Registered_example = register-Registered auth account before refl refl refl
