-- ===== src/Payroll/Run/Phases.antt =====
-- What each phase of `run_payroll` has checked and changed when it succeeds.
use paymage.Base.{ℕ, ◌+◌, ◌≡◌, ◌≤◌, true, some, List, ◌∷◌, get_elem?, insert, is_some, arith, refl}
use paymage.Host.Outcome.{ok}
use paymage.Host.Interface.{Address, U256, Groth16Proof, Host, Auth, i128_max, u64_max}
use paymage.Payroll.State.{DataKey, World, min_ttl, extend_to, require_admin}
use paymage.Payroll.Run.Checks.{
  Batch, read_batch, check_root, check_budget, budget_of, check_proof, next_period, period_of,
}
use paymage.Payroll.Run.Effects.{store_period, close_period, extend_batch, escrow}

abbrev pub Reads : List U256 → Batch → Type 0
Reads inputs b =
    (get_elem? inputs 0 ≡ some b.employee_root)
    × (get_elem? inputs 1 ≡ some b.total_payroll_amount)
    × (get_elem? inputs 2 ≡ some b.payroll_period_id_fe)

module _ {L : Type 0} where
  pub require_admin_lem :
      (auth : Auth) (w w' : World L)
      → require_admin auth w ≡ ok tt w'
      → (a : Address) × (w' ≡ w) × (w.store.admin ≡ some a) × (auth a ≡ true)
  unfolding require_admin
  require_admin_lem auth w w' h = ground arith

  pub read_batch_lem :
      (inputs : List U256) (w w' : World L) (b : Batch)
      → read_batch inputs w ≡ ok b w'
      → (w' ≡ w) × Reads inputs b
  unfolding read_batch
  read_batch_lem inputs w w' b h = ground arith

  pub check_root_lem :
      (root : U256) (w w' : World L)
      → check_root root w ≡ ok tt w'
      → (w' ≡ w) × (w.store.employee_root ≡ some root)
  unfolding check_root
  check_root_lem root w w' h = ground arith

  pub check_budget_lem :
      (total : U256) (w w' : World L)
      → check_budget total w ≡ ok tt w'
      → (w' ≡ w) × (total ≤ budget_of w.store)
  unfolding check_budget
  check_budget_lem total w w' h = ground arith

  pub check_proof_lem :
      (host : Host L) (proof : Groth16Proof) (inputs : List U256) (w w' : World L)
      → check_proof host proof inputs w ≡ ok tt w'
      → (v : Address) × (w' ≡ w)
        × (w.store.verifier ≡ some v)
        × (host.verify v proof inputs ≡ some true)
  unfolding check_proof
  check_proof_lem host proof inputs w w' h = ground arith

  pub next_period_lem :
      (fe n : ℕ) (w w' : World L)
      → next_period fe w ≡ ok n w'
      → (w' ≡ w) × (n ≡ period_of w.store + 1) × (fe ≡ n) × (n ≤ u64_max)
  unfolding next_period
  next_period_lem fe n w w' h = ground arith

  abbrev pub with_period : ℕ → Batch → ℕ → World L → World L
  with_period new b count w = record w {
    store = record (w.store) {
      period =
          insert new
            (record {
              commitment_root = b.employee_root;
              total_amount = b.total_payroll_amount;
              employee_count = count;
              proof_verified = true;
            })
            w.store.period;
      root_to_period = insert b.employee_root new w.store.root_to_period;
    };
  }

  pub store_period_lem :
      (new : ℕ) (b : Batch) (count : ℕ) (w : World L)
      → store_period new b count w ≡ ok tt (with_period new b count w)
  unfolding store_period
  store_period_lem new b count w = refl

  abbrev pub with_closed : ℕ → List U256 → World L → World L
  with_closed new ids w = record w {
    store = record (w.store) {
      period_commitments = insert new ids w.store.period_commitments;
      current_period = some new;
    };
  }

  pub close_period_lem :
      (new : ℕ) (ids : List U256) (w : World L)
      → close_period new ids w ≡ ok tt (with_closed new ids w)
  unfolding close_period
  close_period_lem new ids w = refl

  abbrev pub with_extensions : ℕ → U256 → World L → World L
  with_extensions new root w = record w {
    extensions =
        (DataKey.budget_cap, min_ttl, extend_to)
        ∷ (DataKey.employee_root, min_ttl, extend_to)
        ∷ (DataKey.current_period, min_ttl, extend_to)
        ∷ (DataKey.period_commitments new, min_ttl, extend_to)
        ∷ (DataKey.root_to_period root, min_ttl, extend_to)
        ∷ (DataKey.period new, min_ttl, extend_to)
        ∷ w.extensions;
  }

  pub extend_batch_lem :
      (new : ℕ) (root : U256) (w w' : World L)
      → extend_batch new root w ≡ ok tt w'
      → (w' ≡ with_extensions new root w) × (is_some w.store.budget_cap ≡ true)
  unfolding extend_batch
  extend_batch_lem new root w w' h = ground arith

  pub escrow_lem :
      (host : Host L) (total : U256) (w w' : World L)
      → escrow host total w ≡ ok tt w'
      → (token : Address) × (admin : Address) × (l : L) × (w.store.token ≡ some token)
        × (w.store.admin ≡ some admin)
        × (total ≤ i128_max)
        × (host.transfer token admin host.this total w.ledger ≡ some l)
        × (w' ≡ record w { ledger = l })
  unfolding escrow
  escrow_lem host total w w' h = ground arith
