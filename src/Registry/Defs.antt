-- ===== src/Registry/Defs.antt =====
-- The registry's storage and its one entry point.
use paymage.Base.{
  ◌==◌, ◌&&◌, Bool, true, false, Option, none, some, List, [], ◌∷◌, Map, insert, length,
}
use paymage.Host.Outcome.{Action, ⊤, gets, modify, skip, trap_unless, ◌>>=◌, ◌>>◌}
use paymage.Host.Interface.{Address, Bytes, Auth}

pub record Account : Type 0 where
  pub owner : Address
  pub encryption_key : Bytes
  pub note_key : Bytes

-- `PublicKeyEvent`
pub data Event : Type 0 where
  public_key : (owner : Address) (encryption_key note_key : Bytes) → Event

pub record Registration : Type 0 where
  pub encryption_key : Bytes
  pub note_key : Bytes

-- The key `Registration(Address)`, and the events.
pub record World : Type 0 where
  pub registration : Map Registration
  pub events : List Event

-- The contract has no errors of its own: it traps.
pub data Error : Type 0 where

abbrev pub eq_bytes : Bytes → Bytes → Bool
eq_bytes [] [] = true
eq_bytes [] (y ∷ ys) = false
eq_bytes (x ∷ xs) [] = false
eq_bytes (x ∷ xs) (y ∷ ys) = (x == y) && eq_bytes xs ys

-- `== Some(next)`
abbrev pub is_same : Option Registration → Registration → Bool
is_same none next = false
is_same (some r) next =
    eq_bytes r.encryption_key next.encryption_key && eq_bytes r.note_key next.note_key

-- The write and the event, unless the registration is there already.
unfoldable pub store_unless : Bool → Account → Action World Error ⊤
store_unless true account = skip
store_unless false account = do
  modify λ w. record w {
    registration =
        insert account.owner
          (record { encryption_key = account.encryption_key; note_key = account.note_key })
          w.registration;
  }
  modify λ w. record w {
    events = Event.public_key account.owner account.encryption_key account.note_key ∷ w.events;
  }

unfoldable pub register : Auth → Account → Action World Error ⊤
unfolding store_unless
register auth account = do
  trap_unless (auth account.owner)
  trap_unless (length account.encryption_key == 32)
  trap_unless (length account.note_key == 32)
  let next : Registration = record {
    encryption_key = account.encryption_key;
    note_key = account.note_key;
  }
  same ← gets (λ w. is_same (w.registration account.owner) next)
  store_unless same account
