-- ===== src/Pool/Transact/Effect.antt =====
-- What a successful `transact` has checked and changed, in a world that the invariant holds of.
use paymage.Base.{
  ℕ, ℤ, pos, negsuc, suc, ◌+◌, ◌≡◌, ◌<◌, ◌==◌, not, ◌&&◌, ◌||◌, Bool, true, false, some, List, ◌∷◌,
  All, Map, elem, take, arith,
}
use paymage.Host.Outcome.{ok, >>=-elim, fail_if}
use paymage.Host.Interface.{Address, U256}
use paymage.Poseidon.{Permutes, bn256_modulus}
use paymage.Merkle.Spec.{root_of}
use paymage.Pool.Tree.Defs.{is_known_root, root_history_size}
use paymage.Pool.Tree.History.{is_known_root_lem}
use paymage.Pool.Tree.Correct.{IsTree}
use paymage.Pool.State.{
  Error, Proof, ExtData, World, Env, on_tree, get_asp_membership_root, get_asp_non_membership_root,
  hash_ext_data,
}
use paymage.Pool.Amounts.Defs.{calculate_public_amount, max_ext_amount, i256_abs_to_u256, in_field}
use paymage.Pool.Verify.{verify_proof}
use paymage.Pool.Transact.Defs.{is_marked, check_nullifiers, validate}
use paymage.Pool.Transact.Phases.{IsVerified, check_nullifiers_lem, verify_proof_lem}

-- The field element of an external amount: the amount, or the modulus less its magnitude.
abbrev pub PublicAmount : ℤ → U256 → Type 0
PublicAmount (pos n) r = (n < max_ext_amount) × (r ≡ n)
PublicAmount (negsuc n) r = (suc n < max_ext_amount) × (r + suc n ≡ bn256_modulus)

module _ {L : Type 0} (perm : U256 → U256 → U256) (is_perm : Permutes perm) where
  -- The tree holds these leaves and roots, and these nullifiers are stored.
  pub record IsPool (leaves older : List U256) (k cur : ℕ) (nulls : Map Bool) (w : World L)
      : Type 0 where
    pub is_tree : IsTree perm is_perm leaves older k cur w.tree
    pub nulls_set : w.store.nullifiers ≡ some nulls

module _ {L : Type 0} (env : Env L) (is_perm : Permutes env.perm) where
  -- The steps 1 to 5 of a transaction, passed.
  pub record IsValidated (leaves older : List U256) (k : ℕ) (nulls : Map Bool) (p : Proof)
      (e : ExtData) (w : World L) (verifier member non_member : Address) : Type 0 where
    pub root_nonzero : (p.root == 0) ≡ false
    pub root_recent :
        elem p.root (take root_history_size (root_of env.perm (suc k) leaves ∷ older)) ≡ true
    pub unspent : All (λ n. is_marked nulls n ≡ false) p.input_nullifiers
    pub hash_matches : hash_ext_data env e ≡ p.ext_data_hash
    pub amount_matches : PublicAmount e.ext_amount p.public_amount
    pub member_set : w.store.asp_membership ≡ some member
    pub member_root : env.membership_root member ≡ some p.asp_membership_root
    pub non_member_set : w.store.asp_non_membership ≡ some non_member
    pub non_member_root : env.non_membership_root non_member ≡ some p.asp_non_membership_root
    pub verified : IsVerified env p w true verifier

  amount_lem :
      (v : ℤ) (w w' : World L) (r : ℕ)
      → calculate_public_amount v w ≡ ok r w'
      → (w' ≡ w) × PublicAmount v r
  unfolding calculate_public_amount i256_abs_to_u256 in_field
  amount_lem (pos n) w w' r h = ground arith
  amount_lem (negsuc n) w w' r h = ground arith

  known_lem :
      (leaves older : List U256) (k cur : ℕ) (nulls : Map Bool) (r : U256) (w w' : World L)
      (b : Bool)
      → IsPool env.perm is_perm leaves older k cur nulls w
      → on_tree (is_known_root r) w ≡ ok b w'
      → (w' ≡ w)
        × (b ≡ (
            not (r == 0)
            && elem r (take root_history_size (root_of env.perm (suc k) leaves ∷ older))))
  known_lem leaves older k cur nulls r w w' b pool h = ground (
    arith,
    is_known_root_lem (root_of env.perm (suc k) leaves ∷ older) cur w.tree r pool.is_tree.ring,
  )

  member_lem :
      (w w' : World L) (r : ℕ)
      → get_asp_membership_root env w ≡ ok r w'
      → (a : Address) × (w' ≡ w)
        × (w.store.asp_membership ≡ some a)
        × (env.membership_root a ≡ some r)
  unfolding get_asp_membership_root
  member_lem w w' r h = ground arith

  non_member_lem :
      (w w' : World L) (r : ℕ)
      → get_asp_non_membership_root env w ≡ ok r w'
      → (a : Address) × (w' ≡ w)
        × (w.store.asp_non_membership ≡ some a)
        × (env.non_membership_root a ≡ some r)
  unfolding get_asp_non_membership_root
  non_member_lem w w' r h = ground arith

  pub validate-IsValidated :
      (leaves older : List U256) (k cur : ℕ) (nulls : Map Bool) (p : Proof) (e : ExtData)
      (w w' : World L)
      → IsPool env.perm is_perm leaves older k cur nulls w
      → validate env p e w ≡ ok tt w'
      → (w' ≡ w)
        × (v : Address) × (a : Address) × (b : Address) × IsValidated leaves older k nulls p e w v a
            b
  unfolding validate
  validate-IsValidated leaves older k cur nulls p e w w' pool h =
      >>=-elim (on_tree (is_known_root p.root)) _ h λ known w₁ e₁ h₁.
        >>=-elim (fail_if (not known) Error.unknown_root) _ h₁ λ _ w₂ e₂ h₂.
          >>=-elim (check_nullifiers p.input_nullifiers) _ h₂ λ _ w₃ e₃ h₃.
            >>=-elim (fail_if (not (hash_ext_data env e == p.ext_data_hash)) Error.wrong_ext_hash) _
              h₃
              λ _ w₄ e₄ h₄.
                >>=-elim (calculate_public_amount e.ext_amount) _ h₄ λ expected w₅ e₅ h₅.
                  >>=-elim (fail_if (not (p.public_amount == expected)) Error.wrong_ext_amount) _ h₅
                    λ _ w₆ e₆ h₆. >>=-elim (get_asp_membership_root env) _ h₆ λ m w₇ e₇ h₇.
                      >>=-elim (get_asp_non_membership_root env) _ h₇ λ n w₈ e₈ h₈.
                        >>=-elim
                          (fail_if
                            (not (m == p.asp_membership_root)
                              || not (n == p.asp_non_membership_root))
                            Error.invalid_proof)
                          _ h₈
                          λ _ w₉ e₉ h₉. >>=-elim (verify_proof env p) _ h₉ λ valid w₁₀ e₁₀ h₁₀.
                            let (same₁, known_is) =
                              known_lem leaves older k cur nulls p.root w w₁ known pool e₁ in
                            let (a, same₇, a_set, a_root) = member_lem w₆ w₇ m e₇ in
                            let (b, same₈, b_set, b_root) = non_member_lem w₇ w₈ n e₈ in
                            let (v, v_ok, same₁₀) = verify_proof_lem env p w₉ w₁₀ valid e₁₀ in
                            let same₂ : w₂ ≡ w = ground (arith, same₁) in
                            let (same₃, unspent) =
                              check_nullifiers_lem p.input_nullifiers nulls w₂ w₃
                                (ground (arith, pool.nulls_set)) e₃ in
                            let (same₅, amount) = amount_lem e.ext_amount w₄ w₅ expected e₅ in
                            (ground arith, v, a, b, ground (arith, v_ok))
