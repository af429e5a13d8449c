-- ===== src/Pool/Admin.antt =====
-- The constructor, the queries and the administrator's setters of the pool.
use paymage.Base.{ℕ, Bool, some, empty, is_some, not}
use paymage.Host.Outcome.{⊤, or_trap, gets, fail_if, trap_unless, ◌>>=◌, ◌>>◌}
use paymage.Host.Interface.{Address, U256, Auth}
use paymage.Pool.Tree.Defs.{init, is_known_root, get_last_root}
use paymage.Pool.State.{Error, M, store_with, on_tree, get_admin}

module _ {L : Type 0} where
  unfoldable pub constructor : Address → Address → Address → Address → Address → U256 → ℕ → M L ⊤
  constructor admin token verifier asp_membership asp_non_membership maximum_deposit_amount levels =
      do
        store_with λ s. record s {
          admin = some admin;
          token = some token;
          verifier = some verifier;
          asp_membership = some asp_membership;
          asp_non_membership = some asp_non_membership;
          maximum_deposit_amount = some maximum_deposit_amount;
          nullifiers = some empty;
        }
        on_tree (init levels)

  unfoldable pub get_root : M L U256
  get_root = on_tree get_last_root

  unfoldable pub is_known : U256 → M L Bool
  is_known root = on_tree (is_known_root root)

  -- With `soroban_utils::update_admin`.
  unfoldable pub update_admin : Auth → Address → M L ⊤
  update_admin auth new_admin = do
    fail_if (not (← gets (λ w. is_some w.store.admin))) Error.not_initialized
    admin ← or_trap (← gets (λ w. w.store.admin))
    trap_unless (auth admin)
    store_with λ s. record s { admin = some new_admin }

  unfoldable pub update_asp_membership : Auth → Address → M L ⊤
  unfolding get_admin
  update_asp_membership auth new_asp_membership = do
    admin ← get_admin
    trap_unless (auth admin)
    store_with λ s. record s { asp_membership = some new_asp_membership }

  unfoldable pub update_asp_non_membership : Auth → Address → M L ⊤
  unfolding get_admin
  update_asp_non_membership auth new_asp_non_membership = do
    admin ← get_admin
    trap_unless (auth admin)
    store_with λ s. record s { asp_non_membership = some new_asp_non_membership }
