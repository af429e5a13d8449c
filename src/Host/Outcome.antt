-- ===== src/Host/Outcome.antt =====
-- How a contract invocation ends. A contract that returns an error and one that traps (a panic, a
-- refused authorisation, a failed cross-contract call) leave no trace: the host discards what the
-- invocation wrote, so only a successful outcome carries a state.
use paymage.Base.{◌≡◌, refl, Bool, true, false, Option, none, some}

pub data Outcome (W E A : Type 0) : Type 0 where
  ok : A → W → Outcome W E A
  err : E → Outcome W E A
  trap : Outcome W E A

-- A step of an invocation over the state `W`, with the error type `E`.
abbrev pub Action : Type 0 → Type 0 → Type 0 → Type 0
Action W E A = W → Outcome W E A

module _ {W E A : Type 0} where
  abbrev pub pure : A → Action W E A
  pure a w = ok a w

  abbrev pub fail : E → Action W E A
  fail e w = err e

  abbrev pub panic : Action W E A
  panic w = trap

  abbrev pub gets : (W → A) → Action W E A
  gets f w = ok (f w) w

  -- `o.ok_or(e)?`
  abbrev pub ok_or : Option A → E → Action W E A
  ok_or none e = fail e
  ok_or (some a) e = pure a

  -- The result of a cross-contract call; `none` is a call that trapped.
  abbrev pub or_trap : Option A → Action W E A
  or_trap none = panic
  or_trap (some a) = pure a

infixl 5 ◌>>=◌ ◌>>◌
abbrev pub ◌>>=◌ : {W E A B : Type 0} → Action W E A → (A → Action W E B) → Action W E B
◌>>=◌ m f w = elim (m w) [ ok a w' ↦ f a w' | err e ↦ err e | trap ↦ trap ]

abbrev pub ◌>>◌ : {W E A B : Type 0} → Action W E A → Action W E B → Action W E B
m >> k = m >>= λ _. k

abbrev pub ⊤ : Type 0
⊤ = Unit

module _ {W E : Type 0} where
  abbrev pub skip : Action W E ⊤
  skip w = ok tt w

  abbrev pub modify : (W → W) → Action W E ⊤
  modify f w = ok tt (f w)

  -- `if c { return Err(e) }`
  abbrev pub fail_if : Bool → E → Action W E ⊤
  fail_if true e = fail e
  fail_if false e = skip

  -- `if c { panic }`
  abbrev pub trap_unless : Bool → Action W E ⊤
  trap_unless true = skip
  trap_unless false = panic

-- `let _ = m`: an error is dropped, and what `m` wrote before it with it.
abbrev pub attempt : {W E : Type 0} → Action W E ⊤ → Action W E ⊤
attempt m w = elim (m w) [ ok a w' ↦ ok tt w' | err e ↦ ok tt w | trap ↦ trap ]

-- The parts of a successful sequence.
pub >>=-eq-ok :
    {W E A B : Type 0} (m : Action W E A) (f : A → Action W E B) {w w'' : W} {b : B}
    → (m >>= f) w ≡ ok b w''
    → (a : A) × (w' : W) × (m w ≡ ok a w') × (f a w' ≡ ok b w'')
>>=-eq-ok {W} {E} {A} {B} m f {w} {w''} {b} h = split (m w) refl h
  where
    split :
        (r : Outcome W E A)
        → m w ≡ r
        → ◌≡◌ {A = Outcome W E B}
            (elim r [ ok a w' ↦ f a w' | err e ↦ err e | trap ↦ trap ])
            (ok b w'')
        → (a : A) × (w' : W) × (m w ≡ ok a w') × (f a w' ≡ ok b w'')
    split (ok a w') e k = (a, w', e, k)
    split (err e') e k = cc
    split trap e k = cc

-- The same, for a goal that does not name the parts.
pub >>=-elim {ℓ} :
    {W E A B : Type 0} {P : Type ℓ} (m : Action W E A) (f : A → Action W E B) {w w'' : W} {b : B}
    → (m >>= f) w ≡ ok b w''
    → ((a : A) (w' : W) → m w ≡ ok a w' → f a w' ≡ ok b w'' → P)
    → P
>>=-elim m f h k = let (a, w', e, r) = >>=-eq-ok m f h in k a w' e r

-- A sequence whose first part succeeds goes on with the second.
pub >>=-ok :
    {W E A B : Type 0} (m : Action W E A) (f : A → Action W E B) {w w' : W} {a : A}
    → m w ≡ ok a w'
    → (m >>= f) w ≡ f a w'
>>=-ok m f h = rw (◌>>=◌, h) refl
