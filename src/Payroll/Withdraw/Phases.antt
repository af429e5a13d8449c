-- ===== src/Payroll/Withdraw/Phases.antt =====
-- What each phase of `withdraw` has checked and changed when it succeeds.
use paymage.Base.{ℕ, ◌≡◌, ◌≤◌, true, false, some, List, ◌∷◌, get_elem?, insert, is_some, arith}
use paymage.Host.Outcome.{ok}
use paymage.Host.Interface.{Address, U256, Groth16Proof, Host, i128_max}
use paymage.Payroll.State.{DataKey, World, min_ttl, extend_to}
use paymage.Payroll.Withdraw.Defs.{
  Claim, spent, verify_withdrawal, read_claim, check_claim, mark_spent, pay_out,
}

abbrev pub Reads : List U256 → Claim → Type 0
Reads inputs c =
    (get_elem? inputs 0 ≡ some c.commitment_root)
    × (get_elem? inputs 1 ≡ some c.commitment_id)
    × (get_elem? inputs 2 ≡ some c.nullifier)
    × (get_elem? inputs 3 ≡ some c.salary_amount)

module _ {L : Type 0} where
  pub verify_withdrawal_lem :
      (host : Host L) (proof : Groth16Proof) (inputs : List U256) (w w' : World L)
      → verify_withdrawal host proof inputs w ≡ ok tt w'
      → (v : Address) × (w' ≡ w)
        × (w.store.withdraw_verifier ≡ some v)
        × (host.verify v proof inputs ≡ some true)
  unfolding verify_withdrawal
  verify_withdrawal_lem host proof inputs w w' h = ground arith

  pub read_claim_lem :
      (inputs : List U256) (w w' : World L) (c : Claim)
      → read_claim inputs w ≡ ok c w'
      → (w' ≡ w) × Reads inputs c
  unfolding read_claim
  read_claim_lem inputs w w' c h = ground arith

  pub check_claim_lem :
      (c : Claim) (w w' : World L) (p : ℕ)
      → check_claim c w ≡ ok p w'
      → (w' ≡ w)
        × (w.store.root_to_period c.commitment_root ≡ some p)
        × (is_some (w.store.commitment_record c.commitment_id) ≡ true)
        × (spent w.store c.nullifier ≡ false)
  unfolding check_claim
  check_claim_lem c w w' p h = ground arith

  abbrev pub with_spent : U256 → World L → World L
  with_spent n w = record w {
    store = record (w.store) { withdrawn_nullifier = insert n true w.store.withdrawn_nullifier };
    extensions = (DataKey.withdrawn_nullifier n, min_ttl, extend_to) ∷ w.extensions;
  }

  pub mark_spent_lem : (n : U256) (w : World L) → mark_spent n w ≡ ok tt (with_spent n w)
  unfolding mark_spent
  mark_spent_lem n w = ground arith

  pub pay_out_lem :
      (host : Host L) (recipient : Address) (salary : U256) (w w' : World L)
      → pay_out host recipient salary w ≡ ok tt w'
      → (token : Address) × (l : L) × (w.store.token ≡ some token)
        × (salary ≤ i128_max)
        × (host.transfer token host.this recipient salary w.ledger ≡ some l)
        × (w' ≡ record w { ledger = l })
  unfolding pay_out
  pay_out_lem host recipient salary w w' h = ground arith
