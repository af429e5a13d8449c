-- ===== src/Host/Sample.antt =====
-- A concrete host for the tests: a ledger of balances, and a verifier that accepts every proof.
use paymage.Base.{
  ℕ, ◌+◌, ◌-◌, ◌≡◌, ◌≤◌, true, ◌&&◌, Option, none, some, [], ltb, ◌==◌, if◌then◌else◌, arith, inl,
  inr, Bool-cases,
}
use mathlib.Core.Option.{some-injective}
use paymage.Host.Interface.{Groth16Proof, Host, Auth, IsToken}

-- Balances by token and owner.
abbrev pub Ledger : Type 0
Ledger = ℕ → ℕ → ℕ

abbrev credit : ℕ → ℕ → ℕ → Ledger → Ledger
credit t a x l u b = if (u == t) && (b == a) then l u b + x else l u b

abbrev debit : ℕ → ℕ → ℕ → Ledger → Ledger
debit t a x l u b = if (u == t) && (b == a) then l u b - x else l u b

abbrev move : ℕ → ℕ → ℕ → ℕ → Ledger → Option Ledger
move t from to x l = if ltb (l t from) x then none else some (credit t to x (debit t from x l))

-- The contract is 9, the token 2, the verifiers 3 and 4; every proof is accepted.
abbrev pub host : Host Ledger
host = record { this = 9; verify = λ v p i. some true; transfer = move }

abbrev pub auth : Auth
auth a = true

abbrev pub balance : ℕ → ℕ → Ledger → ℕ
balance t a l = l t a

-- What a transfer that succeeds leaves.
moved :
    (t from to x : ℕ) (l l' : Ledger)
    → move t from to x l ≡ some l'
    → (x ≤ l t from) × (credit t to x (debit t from x l) ≡ l')
moved t from to x l l' e = elim (Bool-cases (ltb (l t from) x)) [
  | inl short ↦ let e' : ◌≡◌ {A = Option Ledger} none (some l') = rw short at e in cc
  | inr covered ↦ (ground arith, some-injective _ _ (rw covered at e))
]

pub host-IsToken : IsToken host balance
host-IsToken = record {
  sent =
      λ t from to x {l} {l'} e ne. let (c, q) = moved t from to x l l' e in rw (← q) (ground arith);
  received =
      λ t from to x {l} {l'} e ne. let (c, q) = moved t from to x l l' e in rw (← q) (ground arith);
}

abbrev pub funds : Ledger
funds t a = if (t == 2) && (a == 1) then 5000 else 0

abbrev pub proof : Groth16Proof
proof = record { a = []; b = []; c = [] }
