-- ===== src/Payroll/Run/Exec.antt =====
-- The entry point `run_payroll`.
use paymage.Base.{List, [], length}
use paymage.Host.Outcome.{⊤, ◌>>=◌, ◌>>◌}
use paymage.Host.Interface.{U256, Bytes, Groth16Proof, Host, Auth}
use paymage.Payroll.State.{Event, M, publish, require_admin}
use paymage.Payroll.Run.Checks.{read_batch, check_root, check_budget, check_proof, next_period}
use paymage.Payroll.Run.Effects.{
  store_period, record_commitments, close_period, extend_batch, escrow,
}

module _ {L : Type 0} (host : Host L) (auth : Auth) where
  unfoldable pub run_payroll : Groth16Proof → List U256 → List (U256 × Bytes) → M L ⊤
  run_payroll proof public_inputs ipfs_cids = do
    require_admin auth
    batch ← read_batch public_inputs
    check_root batch.employee_root
    check_budget batch.total_payroll_amount
    check_proof host proof public_inputs
    new ← next_period batch.payroll_period_id_fe
    store_period new batch (length ipfs_cids)
    commitments ← record_commitments ipfs_cids []
    close_period new commitments
    extend_batch new batch.employee_root
    escrow host batch.total_payroll_amount
    publish (
        Event.payroll_verified new batch.employee_root batch.total_payroll_amount
          (length ipfs_cids))
