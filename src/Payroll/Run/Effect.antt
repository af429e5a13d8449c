-- ===== src/Payroll/Run/Effect.antt =====
-- What a successful `run_payroll` has checked, and what it leaves behind.
use paymage.Base.{ℕ, ◌+◌, ◌≡◌, ◌≤◌, true, some, List, [], ◌∷◌, length, is_some, arith}
use paymage.Host.Outcome.{ok, >>=-elim}
use paymage.Host.Interface.{Address, U256, Bytes, Groth16Proof, Host, Auth, i128_max, u64_max}
use paymage.Payroll.State.{Event, World, require_admin}
use paymage.Payroll.Run.Checks.{
  Batch, read_batch, check_root, check_budget, budget_of, check_proof, next_period, period_of,
}
use paymage.Payroll.Run.Effects.{
  store_period, record_commitments, close_period, extend_batch, escrow,
}
use paymage.Payroll.Run.Exec.{run_payroll}
use paymage.Payroll.Run.Phases.{
  Reads, require_admin_lem, read_batch_lem, check_root_lem, check_budget_lem, check_proof_lem,
  next_period_lem, with_period, store_period_lem, with_closed, close_period_lem, with_extensions,
  extend_batch_lem, escrow_lem,
}
use paymage.Payroll.Run.Commitments.{
  ids, add_records, FreshBatch, with_records, record_commitments_lem, record_commitments-of_fresh,
}

module _ {L : Type 0} (host : Host L) (auth : Auth) where
  -- Everything that a successful run for the batch `b` has checked, with the administrator, the
  -- verifier and the token in use, and the world that it leaves.
  pub record IsRun (proof : Groth16Proof) (inputs : List U256) (cids : List (U256 × Bytes))
      (w w' : World L) (b : Batch) (new : ℕ) (admin verifier token : Address) (ledger : L)
      : Type 0 where
    pub admin_set : w.store.admin ≡ some admin
    pub authorised : auth admin ≡ true
    pub read : Reads inputs b
    pub root_matches : w.store.employee_root ≡ some b.employee_root
    pub in_budget : b.total_payroll_amount ≤ budget_of w.store
    pub budget_set : is_some w.store.budget_cap ≡ true
    pub verifier_set : w.store.verifier ≡ some verifier
    pub proved : host.verify verifier proof inputs ≡ some true
    pub next : new ≡ period_of w.store + 1
    pub proved_period : b.payroll_period_id_fe ≡ new
    pub no_wrap : new ≤ u64_max
    pub fresh : FreshBatch cids w.store.commitment_record
    pub token_set : w.store.token ≡ some token
    pub bounded : b.total_payroll_amount ≤ i128_max
    pub paid : host.transfer token admin host.this b.total_payroll_amount w.ledger ≡ some ledger
    pub after :
        w'
        ≡ record (with_extensions new b.employee_root (
            with_closed new (ids cids) (
              with_records
                (add_records cids w.store.commitment_record)
                (with_period new b (length cids) w)))) {
                  ledger = ledger;
                  events =
                      Event.payroll_verified new b.employee_root b.total_payroll_amount
                        (length cids)
                      ∷ w.events;
                }

  module _ (proof : Groth16Proof) (inputs : List U256) (cids : List (U256 × Bytes)) where
    abbrev pub Ran : World L → World L → Type 0
    Ran w w' =
        (b : Batch) × (new : ℕ) × (admin : Address) × (verifier : Address) × (token : Address)
        × (ledger : L) × IsRun proof inputs cids w w' b new admin verifier token ledger

    -- A payroll run that succeeds was authorised by the administrator and proved to the payroll
    -- verifier; its root is the stored one, its total is within the budget cap and an i128, its
    -- period is the one after the current and fits 64 bits, its commitments are new and distinct; it
    -- records the period and the commitments, maps the root to the period, advances the counter,
    -- moves the total from the administrator to the contract, publishes one event, and changes
    -- nothing else.
    pub run_payroll-Ran :
        {w w' : World L} → run_payroll host auth proof inputs cids w ≡ ok tt w' → Ran w w'
    unfolding run_payroll
    run_payroll-Ran {w} {w'} h = >>=-elim (require_admin auth) _ h λ _ w₁ e₁ h₁.
        >>=-elim (read_batch inputs) _ h₁ λ b w₂ e₂ h₂.
          >>=-elim (check_root b.employee_root) _ h₂ λ _ w₃ e₃ h₃.
            >>=-elim (check_budget b.total_payroll_amount) _ h₃ λ _ w₄ e₄ h₄.
              >>=-elim (check_proof host proof inputs) _ h₄ λ _ w₅ e₅ h₅.
                >>=-elim (next_period b.payroll_period_id_fe) _ h₅ λ n w₆ e₆ h₆.
                  >>=-elim (store_period n b (length cids)) _ h₆ λ _ w₇ e₇ h₇.
                    >>=-elim (record_commitments cids []) _ h₇ λ out w₈ e₈ h₈.
                      >>=-elim (close_period n out) _ h₈ λ _ w₉ e₉ h₉.
                        >>=-elim (extend_batch n b.employee_root) _ h₉ λ _ v₁ d₁ k₁.
                          >>=-elim (escrow host b.total_payroll_amount) _ k₁ λ _ v₂ d₂ k₂.
                            let (a, _, _, _) = require_admin_lem auth w w₁ e₁ in
                            let (v, _, _, _) = check_proof_lem host proof inputs w₄ w₅ e₅ in
                            let (t, _, l, _, _, _, _, _) =
                              escrow_lem host b.total_payroll_amount v₁ v₂ d₂ in
                            (
                              b,
                              n,
                              a,
                              v,
                              t,
                              l,
                              ground (
                                arith,
                                require_admin_lem auth w w₁ e₁,
                                read_batch_lem inputs w₁ w₂ b e₂,
                                check_root_lem b.employee_root w₂ w₃ e₃,
                                check_budget_lem b.total_payroll_amount w₃ w₄ e₄,
                                check_proof_lem host proof inputs w₄ w₅ e₅,
                                next_period_lem b.payroll_period_id_fe n w₅ w₆ e₆,
                                store_period_lem n b (length cids) w₆,
                                record_commitments_lem cids [] out w₇ w₈ e₈,
                                close_period_lem n out w₈,
                                extend_batch_lem n b.employee_root w₉ v₁ d₁,
                                escrow_lem host b.total_payroll_amount v₁ v₂ d₂,
                              ),
                            )

    -- Conversely, where all of that holds the run succeeds, with that very outcome.
    pub Ran-run_payroll :
        {w w' : World L} → Ran w w' → run_payroll host auth proof inputs cids w ≡ ok tt w'
    unfolding run_payroll require_admin read_batch check_root check_budget check_proof next_period
        store_period close_period extend_batch escrow
    Ran-run_payroll {w} (b, new, a, v, t, l, h) =
        ground
          (arith, record_commitments-of_fresh cids [] (with_period new b (length cids) w) h.fresh)
