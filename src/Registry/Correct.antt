-- ===== src/Registry/Correct.antt =====
-- The registry keeps the keys published last for each owner.
use paymage.Base.{
  ◌≡◌, ◌≢◌, true, Option, none, some, [], ◌∷◌, insert, length, arith, refl, Bool-cases, inl, inr,
  if◌then◌else◌,
}
use paymage.Host.Outcome.{ok}
use paymage.Host.Interface.{Address, Bytes, Auth}
use paymage.Registry.Defs.{Account, Event, Registration, World, eq_bytes, is_same, register}

eq_bytes→≡ : (a b : Bytes) → eq_bytes a b ≡ true → a ≡ b
eq_bytes→≡ [] [] h = refl
eq_bytes→≡ [] (y ∷ ys) h = cc
eq_bytes→≡ (x ∷ xs) [] h = cc
eq_bytes→≡ (x ∷ xs) (y ∷ ys) h = ground (arith, eq_bytes→≡ xs ys)

is_same→≡ : (o : Option Registration) (r : Registration) → is_same o r ≡ true → o ≡ some r
is_same→≡ none r h = cc
is_same→≡ (some q) r h =
    ground (arith, eq_bytes→≡ q.encryption_key r.encryption_key, eq_bytes→≡ q.note_key r.note_key)

abbrev pub keys : Account → Registration
keys a = record { encryption_key = a.encryption_key; note_key = a.note_key }

-- What the authorised registration of keys of 32 bytes each leaves.
pub record Registered (account : Account) (w w' : World) : Type 0 where
  pub stored : w'.registration account.owner ≡ some (keys account)
  pub others : (a : Address) → a ≢ account.owner → w'.registration a ≡ w.registration a
  pub published : w'.events ≡ (
      if is_same (w.registration account.owner) (keys account)
      then w.events
      else Event.public_key account.owner account.encryption_key account.note_key ∷ w.events)

-- An authorised registration with keys of 32 bytes succeeds and stores the keys for the owner and
-- for nobody else; it is published unless the very same keys were stored.
pub register-Registered :
    (auth : Auth) (account : Account) (w : World)
    → auth account.owner ≡ true
    → length account.encryption_key ≡ 32
    → length account.note_key ≡ 32
    → (w' : World) × (register auth account w ≡ ok tt w') × Registered account w w'
unfolding register
register-Registered auth account w may e n =
    elim (Bool-cases (is_same (w.registration account.owner) (keys account))) [
      | inl same ↦ (
        w,
        ground arith,
        record {
          stored = is_same→≡ (w.registration account.owner) (keys account) same;
          others = λ a ne. refl;
          published = rw same refl;
        },
      )
      | inr other ↦ (
        record {
          registration = insert account.owner (keys account) w.registration;
          events =
              Event.public_key account.owner account.encryption_key account.note_key ∷ w.events;
        },
        ground arith,
        record { stored = ground arith; others = λ a ne. ground arith; published = rw other refl },
      )
    ]
