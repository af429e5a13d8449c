-- ===== src/NonMembership/Added.antt =====
-- The siblings of a new leaf are of the field and no more than its bits, and `prepare` gives them.
use paymage.Base.{
  ℕ, zero, suc, ◌+◌, ◌==◌, ◌≡◌, ◌≢◌, ◌≤◌, Bool, true, false, List, [], ◌∷◌, ◌++◌, length, All,
  arith, refl, ap, Bool-cases, not, inl, inr,
}
use paymage.Host.Outcome.{ok, >>=-ok}
use paymage.Host.Interface.{U256}
use paymage.Poseidon.{InField}
use paymage.NonMembership.Defs.{World, FindResult, split_bits, hash_leaf}
use paymage.NonMembership.Insert.{common_from, zeros, Levels, Rebuild, prepare}
use paymage.NonMembership.Smt.{Smt, EveryKey, EveryValue, IsPlaced, IsWithin, root_hash}
use paymage.NonMembership.Facts.{length-split_bits}
use paymage.NonMembership.Hashes.{Permutes₃, root_hash_lt, hash_leaf-ok}
use paymage.NonMembership.Bits.{from, length-from}
use paymage.NonMembership.Grow.{answer_of, all_siblings, all_siblings-step, IsApart, IsApart-below}

All-append : (xs ys : List U256) → All InField xs → All InField ys → All InField (xs ++ ys)
All-append [] ys h k = k
All-append (x ∷ xs) ys h k = (h.0, All-append xs ys h.1 k)

zeros-InField : (n : ℕ) → All InField (zeros n)
zeros-InField zero = tt
zeros-InField (suc n) = (omega arith, zeros-InField n)

length-zeros :
    (bs os : List Bool) (x : U256)
    → length bs ≡ length os
    → os ≢ bs
    → length (zeros (common_from os bs 0) ++ x ∷ []) ≤ length bs
unfolding common_from
length-zeros [] [] x e ne = absurd (ne refl)
length-zeros [] (o ∷ os) x e ne = absurd (omega arith)
length-zeros (b ∷ bs) [] x e ne = absurd (omega arith)
length-zeros (true ∷ bs) (true ∷ os) x e ne =
    omega (arith, length-zeros bs os x (omega arith) (λ q. ne (ap (true ∷◌) q)))
length-zeros (true ∷ bs) (false ∷ os) x e ne = omega arith
length-zeros (false ∷ bs) (true ∷ os) x e ne = omega arith
length-zeros (false ∷ bs) (false ∷ os) x e ne =
    omega (arith, length-zeros bs os x (omega arith) (λ q. ne (ap (false ∷◌) q)))

module _ (perm : U256 → U256 → U256) (perm₃ : U256 → U256 → U256 → U256) where
  pub length-all_siblings :
      (key : U256) (t : Smt) (level : ℕ) (bits : List Bool)
      → level + length bits ≡ 256
      → IsPlaced level t
      → IsWithin (length bits) t
      → IsApart level bits t
      → (answer_of perm perm₃ key bits t).found ≡ false
      → length (all_siblings perm perm₃ level bits (answer_of perm perm₃ key bits t)) ≤ length bits
  length-all_siblings key Smt.empty level bits e p d a f = omega arith
  length-all_siblings key (Smt.leaf k v) level bits e p d a f = elim (Bool-cases (k == key)) [
    | inl same ↦ absurd (ground arith)
    | inr other ↦
        let size : length bits ≡ length (from level (split_bits k)) =
          omega (arith, length-from level (split_bits k), length-split_bits k) in
        rw other (length-zeros bits (from level (split_bits k)) (perm₃ k v 1) size a)
  ]
  length-all_siblings key (Smt.node l r) level [] e p d a f = elim d [ ]
  length-all_siblings key (Smt.node l r) level (true ∷ bs) e p d a f =
      let below = answer_of perm perm₃ key bs r in
      rw (all_siblings-step perm perm₃ level true bs (root_hash perm perm₃ l) below (omega arith)) (
        omega (
          arith,
          length-all_siblings key r (suc level) bs (omega arith) p.3 d.1
              (IsApart-below level true bs r p.1 a.1) f,
        ))
  length-all_siblings key (Smt.node l r) level (false ∷ bs) e p d a f =
      let below = answer_of perm perm₃ key bs l in
      rw (all_siblings-step perm perm₃ level false bs (root_hash perm perm₃ r) below (omega arith))
        (omega (
          arith,
          length-all_siblings key l (suc level) bs (omega arith) p.2 d.0
              (IsApart-below level false bs l p.0 a.0) f,
        ))

  -- What a search gives is of the field.
  pub record IsFieldAnswer (r : FindResult) : Type 0 where
    pub siblings : All InField r.siblings
    pub key : InField r.not_found_key
    pub value : InField r.not_found_value

  module _ (permutes₃ : Permutes₃ perm₃) where
    pub answer_of-IsFieldAnswer :
        (key : U256) (t : Smt) (bits : List Bool)
        → InField key
        → EveryKey InField t
        → EveryValue InField t
        → IsFieldAnswer (answer_of perm perm₃ key bits t)
    answer_of-IsFieldAnswer key Smt.empty bits f ks vs = record {
      siblings = tt;
      key = f;
      value = omega arith;
    }
    answer_of-IsFieldAnswer key (Smt.leaf k v) bits f ks vs = elim (Bool-cases (k == key)) [
      | inl same ↦ rw same (record { siblings = tt; key = omega arith; value = omega arith })
      | inr other ↦ rw other (record { siblings = tt; key = ks; value = vs })
    ]
    answer_of-IsFieldAnswer key (Smt.node l r) [] f ks vs = record {
      siblings = tt;
      key = f;
      value = omega arith;
    }
    answer_of-IsFieldAnswer key (Smt.node l r) (true ∷ bs) f ks vs =
        let below = answer_of-IsFieldAnswer key r bs f ks.1 vs.1 in
        record {
          siblings = (root_hash_lt perm perm₃ permutes₃ l, below.siblings);
          key = below.key;
          value = below.value;
        }
    answer_of-IsFieldAnswer key (Smt.node l r) (false ∷ bs) f ks vs =
        let below = answer_of-IsFieldAnswer key l bs f ks.0 vs.0 in
        record {
          siblings = (root_hash_lt perm perm₃ permutes₃ r, below.siblings);
          key = below.key;
          value = below.value;
        }

    pub all_siblings-InField :
        (level : ℕ) (bits : List Bool) (r : FindResult)
        → IsFieldAnswer r
        → All InField (all_siblings perm perm₃ level bits r)
    all_siblings-InField level bits r f =
        let empties =
          zeros (common_from (from level (split_bits r.not_found_key)) bits (length r.siblings)) in
        let leaf = perm₃ r.not_found_key r.not_found_value 1 ∷ [] in
        let extended =
          All-append (r.siblings ++ empties) leaf
            (All-append r.siblings empties f.siblings (zeros-InField _))
            (permutes₃ r.not_found_key r.not_found_value 1, tt) in
        elim (Bool-cases r.is_old0) [
          | inl at_end ↦ rw at_end f.siblings
          | inr at_other ↦ rw at_other extended
        ]

    -- What `prepare` gives the loop.
    pub record IsPrepared (key : U256) (r : FindResult) (ls : Levels) (st : Rebuild) : Type 0 where
      pub bits_are : ls.key_bits ≡ split_bits key
      pub siblings_are : ls.siblings ≡ all_siblings perm perm₃ 0 (split_bits key) r
      pub old_are : ls.old_siblings ≡ r.siblings
      pub old_field : InField st.rt_old

    pub prepare-IsPrepared :
        (w : World) (key : U256) (r : FindResult)
        → IsFieldAnswer r
        → (ls : Levels) × (st : Rebuild) × (prepare perm perm₃ (split_bits key) r w ≡ ok (ls, st) w)
          × IsPrepared key r ls st
    unfolding prepare
    prepare-IsPrepared w key r f = elim (Bool-cases r.is_old0) [
      | inl at_end ↦ (
        record {
          key_bits = split_bits key;
          siblings = r.siblings;
          old_siblings = r.siblings;
          added_one = false;
        },
        record { rt = 0; rt_old = 0; mixed = not (length r.siblings == 0) },
        rw at_end refl,
        record {
          bits_are = refl;
          siblings_are = rw at_end refl;
          old_are = refl;
          old_field = omega arith;
        },
      )
      | inr at_other ↦
          let h = perm₃ r.not_found_key r.not_found_value 1 in
          let common =
            common_from (split_bits r.not_found_key) (split_bits key) (length r.siblings) in
          (
            record {
              key_bits = split_bits key;
              siblings = r.siblings ++ zeros common ++ h ∷ [];
              old_siblings = r.siblings;
              added_one = true;
            },
            record { rt = 0; rt_old = h; mixed = false },
            rw at_other (
                >>=-ok (hash_leaf perm perm₃ r.not_found_key r.not_found_value) _
                  (hash_leaf-ok perm perm₃ w r.not_found_key r.not_found_value f.key f.value)),
            record {
              bits_are = refl;
              siblings_are = rw at_other refl;
              old_are = refl;
              old_field = permutes₃ r.not_found_key r.not_found_value 1;
            },
          )
    ]
