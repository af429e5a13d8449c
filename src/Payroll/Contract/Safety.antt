-- ===== src/Payroll/Contract/Safety.antt =====
-- What holds of every world that the payroll contract reaches, and across each step.
use paymage.Base.{ℕ, ◌≡◌, Distinct, is_some, arith, elem, elem→Elem, Elem→elem}
use paymage.Host.Interface.{U256, Host}
use paymage.Payroll.State.{World}
use paymage.Payroll.Admin.{get_payroll_period, get_current_period, is_nullifier_spent}
use paymage.Payroll.Contract.Defs.{Reach, nullifiers, runs}
use paymage.Payroll.Contract.Invariant.{count_down, in_range, Reach-WellFormed}

module _ {L : Type 0} {host : Host L} where
  -- In every world that the contract reaches, no nullifier stands in two withdrawals, and a
  -- nullifier is reported as spent exactly when a withdrawal with it was published.
  pub Reach-no_double_withdrawal :
      {w : World L} (n : U256)
      → Reach host w
      → Distinct (nullifiers w.events) × (is_nullifier_spent n w ≡ elem n (nullifiers w.events))
  unfolding is_nullifier_spent
  Reach-no_double_withdrawal {w} n r =
      let f = Reach-WellFormed r in
      (
        f.once,
        ground (
          arith,
          f.spent_published n,
          f.published_spent n,
          elem→Elem n (nullifiers w.events),
          Elem→elem n (nullifiers w.events),
        ),
      )

  -- In every world that the contract reaches, the runs published are those of the periods from the
  -- current one down to 1, one each, and a period has a record exactly when it is among these.
  pub Reach-consecutive_periods :
      {w : World L} (n : ℕ)
      → Reach host w
      → (runs w.events ≡ count_down (get_current_period w))
        × (is_some (get_payroll_period n w) ≡ in_range n (get_current_period w))
  unfolding get_current_period get_payroll_period
  Reach-consecutive_periods n r =
      let f = Reach-WellFormed r in (ground (arith, f.counter), ground (arith, f.periods n))
