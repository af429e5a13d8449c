-- ===== src/NonMembership/Verify.antt =====
-- What `find_key` and `verify_non_membership` answer for a world that holds a tree.
use paymage.Base.{
  ◌+◌, ◌==◌, ◌≡◌, ◌≢◌, ◌≤◌, Bool, true, false, some, List, [], ◌∷◌, length, get_elem?, All, arith,
  refl, ap, ◌∙◌, Bool-cases, if◌then◌else◌, inl, inr,
}
use paymage.Host.Outcome.{ok, ok_or, >>=-ok}
use paymage.Host.Interface.{U256}
use paymage.Poseidon.{hash, InField, Permutes, hash_lt}
use paymage.NonMembership.Defs.{
  World, Error, FindResult, split_bits, find_key_internal, find_key, or_zero, hash_internal, climb,
  start_of, verify_non_membership,
}
use paymage.NonMembership.Smt.{Smt, HasKey, Contains, EveryValue, root_hash, IsSmt}
use paymage.NonMembership.Hashes.{Permutes₃, root_hash_lt, hash_internal-ok, hash_leaf-ok}
use paymage.NonMembership.Search.{IsAnswer, IsEnd, folded, find_key_internal-IsAnswer}
use paymage.NonMembership.Facts.{
  length-split_bits, Contains-EveryKey, Contains-EveryValue, same_siblings_refl,
}

module _ (perm : U256 → U256 → U256) (perm₃ : U256 → U256 → U256 → U256) (w : World) (t : Smt)
    (held : IsSmt perm perm₃ w t) (key : U256) where
  answer :
      (r : FindResult) × (find_key_internal w.nodes key (split_bits key) (or_zero w.root) ≡ some r)
      × IsAnswer perm perm₃ key (split_bits key) t r
  answer =
      let within = rw (← length-split_bits key) at held.within in
      rw held.root (
        find_key_internal-IsAnswer perm perm₃ w.nodes key t 0 (split_bits key)
          (λ j. let e : 0 + j ≡ j = omega arith in ap (get_elem? (split_bits key)) e) held.stored
          held.placed within)

  -- In a world that holds a tree, `find_key` succeeds and changes nothing: it finds the value of a
  -- key that the tree has, and says of any other key that it is not there, with the hashes beside its
  -- path and the other leaf at the end of it, if there is one, from which the root follows.
  pub find_key-IsAnswer :
      (r : FindResult) × (find_key key w ≡ ok r w) × IsAnswer perm perm₃ key (split_bits key) t r
  unfolding find_key
  find_key-IsAnswer = let (r, e, a) = answer in (r, rw e refl, a)

  present-answer :
      (r : FindResult)
      → IsAnswer perm perm₃ key (split_bits key) t r
      → HasKey key t
      → r.found ≡ true
  present-answer r a h = elim (Bool-cases r.found) [ inl e ↦ e | inr e ↦ absurd (a.absent e h) ]

  absent-answer :
      (r : FindResult)
      → IsAnswer perm perm₃ key (split_bits key) t r
      → ¬ HasKey key t
      → r.found ≡ false
  absent-answer r a h = elim (Bool-cases r.found) [
    | inl e ↦ absurd (h (has t r.found_value (a.present e)))
    | inr e ↦ e
  ]
    where
      has : (t : Smt) (v : U256) → Contains key v t → HasKey key t
      has Smt.empty v c = elim c [ ]
      has (Smt.leaf k v') v c = c.0
      has (Smt.node l r) v (inl c) = inl (has l v c)
      has (Smt.node l r) v (inr c) = inr (has r v c)

  verify-present :
      (siblings : List U256) (k v : U256)
      → HasKey key t
      → verify_non_membership perm perm₃ key siblings k v w ≡ ok false w
  unfolding verify_non_membership answer
  verify-present siblings k v h = let (r, e, a) = answer in rw (e, present-answer r a h) refl

  -- In a world that holds a tree, no proof of non-membership is accepted for a key that the tree
  -- has: the answer is then `false`, whatever the proof.
  pub verify_non_membership_sound :
      (siblings : List U256) (k v : U256)
      → (HasKey key t → verify_non_membership perm perm₃ key siblings k v w ≡ ok false w)
        × ((w' : World)
            → verify_non_membership perm perm₃ key siblings k v w ≡ ok true w'
            → ¬ HasKey key t)
  verify_non_membership_sound siblings k v =
      (verify-present siblings k v, λ w' e h. let q = verify-present siblings k v h in cc)

  module _ (permutes : Permutes perm) (permutes₃ : Permutes₃ perm₃) where
    folded_lt :
        (bits : List Bool) (ss : List U256) (start : U256)
        → InField start
        → InField (folded perm perm₃ bits ss start)
    folded_lt bits [] start h = h
    folded_lt [] (s ∷ ss) start h = h
    folded_lt (true ∷ bs) (s ∷ ss) start h = hash_lt perm s (folded perm perm₃ bs ss start)
    folded_lt (false ∷ bs) (s ∷ ss) start h = hash_lt perm (folded perm perm₃ bs ss start) s

    start_of-ok :
        (r : FindResult) (start : U256)
        → IsEnd perm perm₃ key r start t
        → EveryValue (λ v. v ≢ 0) t
        → (start_of perm perm₃ key r.not_found_key r.not_found_value w ≡ ok start w) × InField start
    unfolding start_of
    start_of-ok r start (inl (ek, ev, es)) values =
        let same : (r.not_found_key == key) ≡ true = ground arith in
        (rw (same, es) refl, rw es (omega arith))
    start_of-ok r start (inr (ek, c, es)) values =
        let other : (r.not_found_key == key) ≡ false = ground (arith, ek) in
        let positive : (r.not_found_value == 0) ≡ false =
          ground (
            arith,
            Contains-EveryValue (λ v. v ≢ 0) t r.not_found_key r.not_found_value values c,
          ) in
        (
          rw (other, positive, es)
              (hash_leaf-ok perm perm₃ w r.not_found_key r.not_found_value
                (Contains-EveryKey InField t r.not_found_key r.not_found_value held.keys c)
                (Contains-EveryValue InField t r.not_found_key r.not_found_value held.values c)),
          rw es (permutes₃ r.not_found_key r.not_found_value 1),
        )

    climb-folded :
        (bits : List Bool) (ss : List U256) (start : U256)
        → InField start
        → All (λ h. (s : Smt) × (h ≡ root_hash perm perm₃ s)) ss
        → length ss ≤ length bits
        → climb perm perm₃ bits ss start w ≡ ok (folded perm perm₃ bits ss start) w
    unfolding climb
    climb-folded bits [] start f a short = refl
    climb-folded [] (s ∷ ss) start f a short = absurd (omega arith)
    climb-folded (b ∷ bs) (s ∷ ss) start f a short =
        >>=-ok (climb perm perm₃ bs ss start) _
          (climb-folded bs ss start f a.1 (omega (arith, short)))
        ∙ one b (folded perm perm₃ bs ss start) (folded_lt bs ss start f)
      where
        sibling : InField s
        sibling = let (sub, e) = a.0 in rw e (root_hash_lt perm perm₃ permutes₃ sub)

        one :
            (b : Bool) (h : U256)
            → InField h
            → (if b then hash_internal perm perm₃ s h else hash_internal perm perm₃ h s) w
              ≡ ok (if b then hash perm s h else hash perm h s) w
        one true h f = hash_internal-ok perm perm₃ permutes w s h sibling f
        one false h f = hash_internal-ok perm perm₃ permutes w h s f sibling

    verify-absent :
        (r : FindResult)
        → find_key_internal w.nodes key (split_bits key) (or_zero w.root) ≡ some r
        → IsAnswer perm perm₃ key (split_bits key) t r
        → r.found ≡ false
        → EveryValue (λ v. v ≢ 0) t
        → verify_non_membership perm perm₃ key r.siblings r.not_found_key r.not_found_value w
          ≡ ok true w
    unfolding verify_non_membership
    verify-absent r e a absent values =
        let (started, field) = start_of-ok r a.start (a.ends absent) values in
        let climbed = climb-folded (split_bits key) r.siblings a.start field a.subtrees a.short in
        let same = same_siblings_refl r.siblings in
        let same_key : (r.not_found_key == r.not_found_key) ≡ true = ground arith in
        let same_value : (r.not_found_value == r.not_found_value) ≡ true = ground arith in
        let root : (folded perm perm₃ (split_bits key) r.siblings a.start == or_zero w.root)
            ≡ true =
          rw (held.root, a.path absent) (ground arith) in
        rw (e, absent, same, same_key, same_value)
          (>>=-ok (start_of perm perm₃ key r.not_found_key r.not_found_value) _ started
            ∙ >>=-ok (climb perm perm₃ (split_bits key) r.siblings a.start) _ climbed
            ∙ rw root refl)

  -- In a world that holds a tree without the key and without zero values, what `find_key` returns is
  -- a proof of non-membership that `verify_non_membership` accepts, given that the permutation's
  -- outputs are field elements.
  pub find_key-verify_non_membership :
      Permutes perm
      → Permutes₃ perm₃
      → ¬ HasKey key t
      → EveryValue (λ v. v ≢ 0) t
      → (r : FindResult) → find_key key w ≡ ok r w
      → verify_non_membership perm perm₃ key r.siblings r.not_found_key r.not_found_value w
        ≡ ok true w
  unfolding find_key
  find_key-verify_non_membership permutes permutes₃ out values r h =
      let (x, e, a) = answer in
      let found : ok_or (some x) Error.key_not_found w ≡ ok r w = rw e at h in
      let same : x ≡ r = ground arith in
      let e' : find_key_internal w.nodes key (split_bits key) (or_zero w.root) ≡ some r =
        rw (← same) e in
      let a' : IsAnswer perm perm₃ key (split_bits key) t r = rw (← same) a in
      verify-absent permutes permutes₃ r e' a' (absent-answer r a' out) values
