-- ===== src/Payroll/Withdraw/Effect.antt =====
-- `withdraw` succeeds exactly when its checks pass, and then changes exactly what it must.
use paymage.Base.{ℕ, ◌≡◌, ◌≤◌, true, false, some, List, ◌∷◌, is_some, arith}
use paymage.Host.Outcome.{ok, trap_unless, >>=-elim}
use paymage.Host.Interface.{Address, U256, Groth16Proof, Host, Auth, i128_max}
use paymage.Payroll.State.{Event, World}
use paymage.Payroll.Withdraw.Defs.{
  Claim, spent, verify_withdrawal, read_claim, check_claim, mark_spent, pay_out, withdraw,
}
use paymage.Payroll.Withdraw.Phases.{
  Reads, verify_withdrawal_lem, read_claim_lem, check_claim_lem, mark_spent_lem, pay_out_lem,
  with_spent,
}

module _ {L : Type 0} (host : Host L) (auth : Auth) where
  -- Everything that a successful withdrawal of the claim `c` from the period has checked, with the
  -- verifier and the token in use, and the world that it leaves.
  pub record IsWithdrawal (proof : Groth16Proof) (inputs : List U256) (recipient : Address)
      (w w' : World L) (c : Claim) (period : ℕ) (verifier token : Address) (ledger : L)
      : Type 0 where
    pub authorised : auth recipient ≡ true
    pub verifier_set : w.store.withdraw_verifier ≡ some verifier
    pub proved : host.verify verifier proof inputs ≡ some true
    pub read : Reads inputs c
    pub known_root : w.store.root_to_period c.commitment_root ≡ some period
    pub known_commitment : is_some (w.store.commitment_record c.commitment_id) ≡ true
    pub fresh : spent w.store c.nullifier ≡ false
    pub token_set : w.store.token ≡ some token
    pub bounded : c.salary_amount ≤ i128_max
    pub paid : host.transfer token host.this recipient c.salary_amount w.ledger ≡ some ledger
    pub after : w' ≡ record (with_spent c.nullifier w) {
      ledger = ledger;
      events = Event.withdrawal c.nullifier period c.salary_amount recipient ∷ w.events;
    }

  module _ (proof : Groth16Proof) (inputs : List U256) (recipient : Address) where
    abbrev pub Withdrawn : World L → World L → Type 0
    Withdrawn w w' =
        (c : Claim) × (period : ℕ) × (verifier : Address) × (token : Address) × (ledger : L)
        × IsWithdrawal proof inputs recipient w w' c period verifier token ledger

    -- A withdrawal that succeeds was authorised by the recipient and proved to the withdrawal
    -- verifier; its root belongs to a paid period, its commitment is recorded, its nullifier was not
    -- spent before and is spent after, the salary fits an i128 and was transferred from the
    -- contract to the recipient, one event was published, and nothing else changed.
    pub withdraw-Withdrawn :
        {w w' : World L} → withdraw host auth proof inputs recipient w ≡ ok tt w' → Withdrawn w w'
    unfolding withdraw
    withdraw-Withdrawn {w} {w'} h = >>=-elim (trap_unless (auth recipient)) _ h λ _ w₁ e₁ h₁.
        >>=-elim (verify_withdrawal host proof inputs) _ h₁ λ _ w₂ e₂ h₂.
          >>=-elim (read_claim inputs) _ h₂ λ c w₃ e₃ h₃.
            >>=-elim (check_claim c) _ h₃ λ p w₄ e₄ h₄.
              >>=-elim (mark_spent c.nullifier) _ h₄ λ _ w₅ e₅ h₅.
                >>=-elim (pay_out host recipient c.salary_amount) _ h₅ λ _ w₆ e₆ h₆.
                  let (v, _, _, _) = verify_withdrawal_lem host proof inputs w₁ w₂ e₂ in
                  let (t, l, _, _, _, _) = pay_out_lem host recipient c.salary_amount w₅ w₆ e₆ in
                  (
                    c,
                    p,
                    v,
                    t,
                    l,
                    ground (
                      arith,
                      verify_withdrawal_lem host proof inputs w₁ w₂ e₂,
                      read_claim_lem inputs w₂ w₃ c e₃,
                      check_claim_lem c w₃ w₄ p e₄,
                      mark_spent_lem c.nullifier w₄,
                      pay_out_lem host recipient c.salary_amount w₅ w₆ e₆,
                    ),
                  )

    -- Conversely, where all of that holds the withdrawal succeeds, with that very outcome.
    pub Withdrawn-withdraw :
        {w w' : World L} → Withdrawn w w' → withdraw host auth proof inputs recipient w ≡ ok tt w'
    unfolding withdraw verify_withdrawal read_claim check_claim mark_spent pay_out
    Withdrawn-withdraw h = ground arith
