-- ===== src/NonMembership/Rebuilt.antt =====
-- The loop of `insert_leaf` over the levels: what it computes for the new root.
use paymage.Base.{
  ℕ, zero, suc, not, ◌&&◌, ◌≡◌, ◌<◌, ◌≤◌, Bool, true, false, some, List, [], ◌∷◌, length, get_elem?,
  get_or, All, arith, refl, ap, ◌∙◌, if◌then◌else◌, Map, insert,
}
use paymage.Host.Outcome.{ok, ok_or, or_trap, >>=-ok}
use paymage.Host.Interface.{U256}
use paymage.Poseidon.{hash, hash_lt, InField, Permutes}
use paymage.Planner.Facts.{or_trap-eq_ok, ok_or-eq_ok}
use paymage.NonMembership.Defs.{World, Error, or_zero}
use paymage.NonMembership.Insert.{
  Levels, Rebuild, is_last_added_leaf, is_mixed, hash_pair, drop_old, remove, insert_level,
  insert_levels,
}
use paymage.NonMembership.Search.{folded}
use paymage.NonMembership.Hashes.{hash_internal-ok}

pub get_elem?-within {ℓ} :
    {A : Type ℓ} (xs : List A) (i : ℕ) (d : A)
    → i < length xs
    → get_elem? xs i ≡ some (get_or xs i d)
get_elem?-within [] i d h = absurd (omega arith)
get_elem?-within (x ∷ xs) zero d h = refl
get_elem?-within (x ∷ xs) (suc i) d h = get_elem?-within xs i d (omega arith)

get_or-InField : (xs : List U256) (i : ℕ) → All InField xs → InField (get_or xs i 0)
get_or-InField [] i h = omega arith
get_or-InField (x ∷ xs) zero h = h.0
get_or-InField (x ∷ xs) (suc i) h = get_or-InField xs i h.1

or_zero-get_elem? : (xs : List U256) (i : ℕ) → or_zero (get_elem? xs i) ≡ get_or xs i 0
or_zero-get_elem? [] i = refl
or_zero-get_elem? (x ∷ xs) zero = refl
or_zero-get_elem? (x ∷ xs) (suc i) = or_zero-get_elem? xs i

-- What the loop reads is of the field, and there is a bit for every level.
pub record IsReadable (ls : Levels) : Type 0 where
  pub siblings : All InField ls.siblings
  pub old_siblings : All InField ls.old_siblings
  pub room : length ls.siblings ≤ length ls.key_bits

module _ (perm : U256 → U256 → U256) (perm₃ : U256 → U256 → U256 → U256) where
  abbrev pub join : Bool → U256 → U256 → U256
  join b s h = if b then hash perm s h else hash perm h s

  -- The hash of the lowest levels, from the last one up.
  abbrev pub run_up : List Bool → List U256 → ℕ → U256 → U256
  run_up bits ss zero h = h
  run_up bits ss (suc i) h = run_up bits ss i (join (get_or bits i false) (get_or ss i 0) h)

  run_up-step :
      (b : Bool) (bs : List Bool) (s : U256) (ss : List U256) (n : ℕ) (h : U256)
      → run_up (b ∷ bs) (s ∷ ss) (suc n) h ≡ join b s (run_up bs ss n h)
  run_up-step b bs s ss zero h = refl
  run_up-step b bs s ss (suc n) h =
      run_up-step b bs s ss n (join (get_or bs n false) (get_or ss n 0) h)

  pub run_up-folded :
      (bits : List Bool) (ss : List U256) (h : U256)
      → length ss ≤ length bits
      → run_up bits ss (length ss) h ≡ folded perm perm₃ bits ss h
  run_up-folded bits [] h e = refl
  run_up-folded [] (s ∷ ss) h e = absurd (omega arith)
  run_up-folded (b ∷ bs) (s ∷ ss) h e =
      run_up-step b bs s ss (length ss) h ∙ ap (join b s) (run_up-folded bs ss h (omega arith))

  module _ (permutes : Permutes perm) where
    join_lt : (b : Bool) (s h : U256) → InField (join b s h)
    join_lt true s h = hash_lt perm s h
    join_lt false s h = hash_lt perm h s

    hash_pair-ok :
        (w : World) (b : Bool) (s h : U256)
        → InField s
        → InField h
        → hash_pair perm perm₃ b s h w ≡ ok (join b s h) w
    unfolding hash_pair
    hash_pair-ok w true s h fs fh = hash_internal-ok perm perm₃ permutes w s h fs fh
    hash_pair-ok w false s h fs fh = hash_internal-ok perm perm₃ permutes w h s fh fs

    module _ (ls : Levels) (readable : IsReadable ls) where
      bit_there :
          (i : ℕ)
          → i < length ls.siblings
          → get_elem? ls.key_bits i ≡ some (get_or ls.key_bits i false)
      bit_there i h = get_elem?-within ls.key_bits i false (omega (arith, readable.room))

      drop_old-ok :
          (w : World) (i : ℕ) (b : Bool) (rt_old : U256)
          → i < length ls.siblings
          → InField rt_old
          → (old : U256) × (m : Map (List U256)) × (drop_old perm perm₃ ls i b rt_old w
              ≡ ok old (record w { nodes = m }))
            × InField old
      unfolding drop_old
      drop_old-ok w i false rt_old lt f = (rt_old, w.nodes, refl, f)
      drop_old-ok w i true rt_old lt f =
          let bit = get_or ls.key_bits i false in
          let s = or_zero (get_elem? ls.old_siblings i) in
          let fs : InField s =
            rw (or_zero-get_elem? ls.old_siblings i)
              (get_or-InField ls.old_siblings i readable.old_siblings) in
          let old = join bit s rt_old in
          (
            old,
            remove old w.nodes,
            >>=-ok (ok_or (get_elem? ls.key_bits i) Error.key_not_found) _
                  (ok_or-eq_ok Error.key_not_found w (bit_there i lt))
                ∙ >>=-ok (hash_pair perm perm₃ bit s rt_old) _ (hash_pair-ok w bit s rt_old fs f),
            join_lt bit s rt_old,
          )

      insert_level-ok :
          (w : World) (i : ℕ) (st : Rebuild)
          → i < length ls.siblings
          → InField st.rt
          → InField st.rt_old
          → (next : Rebuild) × (m : Map (List U256)) × (insert_level perm perm₃ ls i st w
              ≡ ok next (record w { nodes = m }))
            × (next.rt ≡ join (get_or ls.key_bits i false) (get_or ls.siblings i 0) st.rt)
            × InField next.rt_old
      unfolding insert_level
      insert_level-ok w i st lt f fo =
          let bit = get_or ls.key_bits i false in
          let s = get_or ls.siblings i 0 in
          let mixed = is_mixed ls i s st.mixed in
          let flag = mixed && not (is_last_added_leaf ls i) in
          let (old, m, dropped, fo') = drop_old-ok w i flag st.rt_old lt fo in
          let w' : World = record w { nodes = m } in
          let rt = join bit s st.rt in
          let node = if bit then s ∷ st.rt ∷ [] else st.rt ∷ s ∷ [] in
          (
            record { rt = rt; rt_old = old; mixed = mixed },
            insert rt node m,
            >>=-ok (or_trap (get_elem? ls.siblings i)) _
                  (or_trap-eq_ok w (get_elem?-within ls.siblings i 0 lt))
                ∙ >>=-ok (drop_old perm perm₃ ls i flag st.rt_old) _ dropped
                ∙ >>=-ok (ok_or (get_elem? ls.key_bits i) Error.key_not_found) _
                    (ok_or-eq_ok Error.key_not_found w' (bit_there i lt))
                ∙ >>=-ok (hash_pair perm perm₃ bit s st.rt) _ (
                    hash_pair-ok w' bit s st.rt (get_or-InField ls.siblings i readable.siblings) f),
            refl,
            fo',
          )

      pub insert_levels-ok :
          (w : World) (n : ℕ) (st : Rebuild)
          → n ≤ length ls.siblings
          → InField st.rt
          → InField st.rt_old
          → (final : Rebuild) × (m : Map (List U256)) × (insert_levels perm perm₃ ls n st w
              ≡ ok final (record w { nodes = m }))
            × (final.rt ≡ run_up ls.key_bits ls.siblings n st.rt)
      unfolding insert_levels
      insert_levels-ok w zero st le f fo = (st, w.nodes, refl, refl)
      insert_levels-ok w (suc i) st le f fo =
          let (next, m, e, rt, fo') = insert_level-ok w i st (omega arith) f fo in
          let f' : InField next.rt =
            rw rt (join_lt (get_or ls.key_bits i false) (get_or ls.siblings i 0) st.rt) in
          let (final, m', e', top) =
            insert_levels-ok (record w { nodes = m }) i next (omega arith) f' fo' in
          (
            final,
            m',
            >>=-ok (insert_level perm perm₃ ls i st) _ e ∙ e',
            top ∙ ap (run_up ls.key_bits ls.siblings i) rt,
          )
