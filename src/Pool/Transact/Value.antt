-- ===== src/Pool/Transact/Value.antt =====
-- The value that a transaction moves, under a token that keeps balances.
use paymage.Base.{
  ℕ, ℤ, pos, negsuc, zero, suc, pos_part, neg_part, ◌+◌, ◌%◌, ◌≡◌, ◌≢◌, Map, Bool, List, some,
  arith,
}
use paymage.Host.Outcome.{ok}
use paymage.Host.Interface.{Address, U256, Auth, IsToken}
use paymage.Poseidon.{Permutes, bn256_modulus}
use paymage.Pool.State.{Proof, ExtData, World, Env}
use paymage.Pool.Transact.Defs.{transact}
use paymage.Pool.Transact.Phases.{Deposits, Pays}
use paymage.Pool.Transact.Effect.{IsPool, PublicAmount}
use paymage.Pool.Transact.Settle.{transact-IsTransacted}

module _ {L : Type 0} (env : Env L) (balance : Address → Address → L → ℕ)
    (is_token : IsToken env.host balance) where
  moved_lem :
      (t sender recipient : Address) (v : ℤ) (l mid l' : L)
      → Deposits env t sender v l mid
      → Pays env t recipient v mid l'
      → env.host.this ≢ sender
      → env.host.this ≢ recipient
      → balance t env.host.this l' + neg_part v ≡ balance t env.host.this l + pos_part v
  moved_lem t sender recipient (pos zero) l mid l' d p other other' = ground arith
  moved_lem t sender recipient (pos (suc n)) l mid l' d p other other' =
      ground (arith, is_token.received t sender env.host.this (suc n) d)
  moved_lem t sender recipient (negsuc n) l mid l' d p other other' =
      ground (arith, is_token.sent t env.host.this recipient (suc n) p)

  amount_congruent :
      (v : ℤ) (r : U256) → PublicAmount v r → (r + neg_part v) % bn256_modulus ≡ pos_part v
  amount_congruent (pos n) r h = ground arith
  amount_congruent (negsuc n) r h = ground arith

  -- A transaction that succeeds, neither sent by the pool nor paying it, changes the pool's balance
  -- of its token by exactly the external amount, up when that is positive and down when it is
  -- negative; and the public amount that the proof is verified for is that amount in the field.
  pub transact-balance :
      (is_perm : Permutes env.perm) (auth : Auth) (leaves older : List U256) (k cur : ℕ)
      (nulls : Map Bool) (p : Proof) (e : ExtData) (sender : Address) (w w' : World L)
      → IsPool env.perm is_perm leaves older k cur nulls w
      → transact env auth p e sender w ≡ ok tt w'
      → env.host.this ≢ sender
      → env.host.this ≢ e.recipient
      → (t : Address) × (w.store.token ≡ some t)
        × (balance t env.host.this w'.ledger + neg_part e.ext_amount
            ≡ balance t env.host.this w.ledger + pos_part e.ext_amount)
        × ((p.public_amount + neg_part e.ext_amount) % bn256_modulus ≡ pos_part e.ext_amount)
  transact-balance is_perm auth leaves older k cur nulls p e sender w w' pool h other other' =
      let (t, v, a, b, mid, r) =
        transact-IsTransacted env is_perm auth leaves older k cur nulls p e sender w w' pool h in
      (
        t,
        r.token_set,
        moved_lem t sender e.recipient e.ext_amount w.ledger mid w'.ledger r.deposited r.paid other
            other',
        amount_congruent e.ext_amount p.public_amount r.validated.amount_matches,
      )
