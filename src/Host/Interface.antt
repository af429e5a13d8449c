-- ===== src/Host/Interface.antt =====
-- The host's services, as parameters of the contracts. The proof verifier, the token and the
-- authorisation framework are other contracts or host code: nothing is assumed of them beyond
-- what a theorem names as a hypothesis.
use paymage.Base.{ℕ, ◌+◌, ◌-◌, ◌^◌, ◌≡◌, ◌≢◌, Bool, Option, some, List}

abbrev pub Address : Type 0
Address = ℕ

abbrev pub U256 : Type 0
U256 = ℕ

abbrev pub Bytes : Type 0
Bytes = List ℕ

abbrev pub u64_max : ℕ
u64_max = 2 ^ 64 - 1

abbrev pub u128_mod : ℕ
u128_mod = 2 ^ 128

abbrev pub i128_max : ℕ
i128_max = 2 ^ 127 - 1

-- `contract_types::Groth16Proof`: the three curve points, as bytes.
pub record Groth16Proof : Type 0 where
  pub a : Bytes
  pub b : Bytes
  pub c : Bytes

-- Who authorised the invocation: `address.require_auth()` traps unless this is true of it.
abbrev pub Auth : Type 0
Auth = Address → Bool

-- The other contracts that a call may reach. `L` is the state of all token contracts; a call that
-- traps gives `none`.
pub record Host (L : Type 0) : Type 0 where
  pub this : Address
  pub verify : Address → Groth16Proof → List U256 → Option Bool
  -- token, from, to, amount
  pub transfer : Address → Address → Address → ℕ → L → Option L

-- Balances under a SEP-41 token: a transfer between two addresses that succeeds takes the amount
-- from the one and gives it to the other. Of other balances it says nothing.
pub record IsToken {L : Type 0} (host : Host L) (balance : Address → Address → L → ℕ) : Type 0 where
  pub sent :
      (t from to x : ℕ) {l l' : L}
      → host.transfer t from to x l ≡ some l'
      → from ≢ to
      → balance t from l' + x ≡ balance t from l
  pub received :
      (t from to x : ℕ) {l l' : L}
      → host.transfer t from to x l ≡ some l'
      → from ≢ to
      → balance t to l' ≡ balance t to l + x
