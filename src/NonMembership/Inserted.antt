-- ===== src/NonMembership/Inserted.antt =====
-- `insert_leaf` in a world that holds a tree.
use paymage.Base.{
  ◌+◌, ◌≡◌, ◌≤◌, true, some, List, [], ◌∷◌, length, arith, refl, ap, ◌∙◌, ◌↔◌, ◌⊎◌, Map, insert,
}
use paymage.Host.Outcome.{Outcome, ⊤, ok, err, ok_or, trap_unless, fail_if, >>=-ok}
use paymage.Host.Interface.{Address, U256, Auth}
use paymage.Poseidon.{InField, Permutes}
use paymage.Planner.Facts.{ok_or-eq_ok}
use paymage.NonMembership.Defs.{
  World, Error, Event, split_bits, find_key_internal, or_zero, hash_leaf,
}
use paymage.NonMembership.Insert.{prepare, insert_levels, insert_leaf}
use paymage.NonMembership.Smt.{Smt, HasKey, Contains, IsPlaced, IsWithin, root_hash, IsSmt}
use paymage.NonMembership.Facts.{length-split_bits}
use paymage.NonMembership.Hashes.{Permutes₃, hash_leaf-ok}
use paymage.NonMembership.Grow.{
  answer_of, find_key_internal-answer_of, all_siblings, IsApart, folded-insert_at, insert_tree,
  EveryKey-IsApart,
}
use paymage.NonMembership.Present.{answer_of-absent, answer_of-present}
use paymage.NonMembership.Grown.{insert_at-IsPlaced, insert_at-IsWithin, insert_at-Contains}
use paymage.NonMembership.Added.{
  length-all_siblings, answer_of-IsFieldAnswer, all_siblings-InField, prepare-IsPrepared,
}
use paymage.NonMembership.Rebuilt.{IsReadable, insert_levels-ok, run_up, run_up-folded}

module _ (perm : U256 → U256 → U256) (perm₃ : U256 → U256 → U256 → U256) (w : World) (t : Smt)
    (held : IsSmt perm perm₃ w t) (key : U256) where
  pub search :
      find_key_internal w.nodes key (split_bits key) (or_zero w.root)
      ≡ some (answer_of perm perm₃ key (split_bits key) t)
  search =
      let within = rw (← length-split_bits key) at held.within in
      ap (λ o. find_key_internal w.nodes key (split_bits key) (or_zero o)) held.root
      ∙ find_key_internal-answer_of perm perm₃ w.nodes key t (split_bits key) held.stored within

  module _ (admin : Address) (auth : Auth) (admin_set : w.admin ≡ some admin)
      (allowed : auth admin ≡ true) (value : U256) where
    -- For a key that the tree has, `insert_leaf` by the administrator returns `KeyAlreadyExists`.
    pub insert_leaf-again :
        HasKey key t → insert_leaf perm perm₃ auth key value w ≡ err Error.key_already_exists
    unfolding insert_leaf
    insert_leaf-again has =
        let within = rw (← length-split_bits key) at held.within in
        let present =
          answer_of-present perm perm₃ key t 0 (split_bits key) refl held.placed within has in
        simp (admin_set, allowed, search, present) refl

    pub insert_leaf-root :
        Permutes perm
        → Permutes₃ perm₃
        → InField key
        → InField value
        → ¬ HasKey key t
        → (m : Map (List U256)) × (insert_leaf perm perm₃ auth key value w
            ≡ ok tt (record w {
              root = some (root_hash perm perm₃ (insert_tree key value t));
              nodes = m;
              events =
                  Event.leaf_inserted key value (root_hash perm perm₃ (insert_tree key value t))
                  ∷ w.events;
            }))
    unfolding insert_leaf
    insert_leaf-root permutes permutes₃ key_in value_in out =
        let bits = split_bits key in
        let r = answer_of perm perm₃ key bits t in
        let absent = answer_of-absent perm perm₃ key t (split_bits key) out in
        let ss = all_siblings perm perm₃ 0 bits r in
        let field =
          answer_of-IsFieldAnswer perm perm₃ permutes₃ key t bits key_in held.keys held.values in
        let (ls, st, prepared, ready) = prepare-IsPrepared perm perm₃ permutes₃ w key r field in
        let sum : 0 + length bits ≡ 256 = omega (arith, length-split_bits key) in
        let within = rw (← length-split_bits key) at held.within in
        let apart : IsApart 0 bits t = EveryKey-IsApart key t (omega arith) held.keys out in
        let room : length ss ≤ length bits =
          length-all_siblings perm perm₃ key t 0 bits sum held.placed within apart absent in
        let readable : IsReadable ls = record {
          siblings =
              rw ready.siblings_are (all_siblings-InField perm perm₃ permutes₃ 0 bits r field);
          old_siblings = rw ready.old_are field.siblings;
          room = rw (ready.siblings_are, ready.bits_are) room;
        } in
        let leaf = perm₃ key value 1 in
        let w' : World = record w { nodes = insert leaf (1 ∷ key ∷ value ∷ []) w.nodes } in
        let (final, m, looped, top) =
          insert_levels-ok perm perm₃ permutes ls readable w' (length ls.siblings)
            (record st { rt = leaf }) (omega arith) (permutes₃ key value 1) ready.old_field in
        let made : run_up perm perm₃ ls.key_bits ls.siblings (length ls.siblings) leaf
            ≡ root_hash perm perm₃ (insert_tree key value t) =
          rw (ready.siblings_are, ready.bits_are)
            (run_up-folded perm perm₃ bits ss leaf room
              ∙ folded-insert_at perm perm₃ key value t 0 bits sum held.placed within apart
                  absent) in
        let permitted : trap_unless {E = Error} (auth admin) w ≡ ok tt w = rw allowed refl in
        let new_key : fail_if r.found Error.key_already_exists w ≡ ok tt w = rw absent refl in
        let done : U256 → Outcome World Error ⊤ = λ h. ok tt (record w {
          root = some h;
          nodes = m;
          events = Event.leaf_inserted key value h ∷ w.events;
        }) in
        (
          m,
          >>=-ok (ok_or w.admin Error.not_initialized) _
                (ok_or-eq_ok Error.not_initialized w admin_set)
              ∙ >>=-ok (trap_unless (auth admin)) _ permitted
              ∙ >>=-ok
                  (ok_or (find_key_internal w.nodes key bits (or_zero w.root)) Error.key_not_found)
                  _ (ok_or-eq_ok Error.key_not_found w search)
              ∙ >>=-ok (fail_if r.found Error.key_already_exists) _ new_key
              ∙ >>=-ok (prepare perm perm₃ bits r) _ prepared
              ∙ >>=-ok (hash_leaf perm perm₃ key value) _
                  (hash_leaf-ok perm perm₃ w key value key_in value_in)
              ∙ >>=-ok (insert_levels perm perm₃ ls (length ls.siblings) (record st { rt = leaf }))
                  _ looped
              ∙ ap done (top ∙ made),
        )

    -- In a world that holds a tree without the key, `insert_leaf` by the administrator succeeds for a key
    -- and a value below the modulus, given that the permutation's outputs are below it too. The new
    -- root, which the event tells, is that of a sparse tree of the leaves before and the new one; besides
    -- the root, only the nodes and the events change.
    pub insert_leaf-grows :
        Permutes perm
        → Permutes₃ perm₃
        → InField key
        → InField value
        → ¬ HasKey key t
        → (t' : Smt) × IsPlaced 0 t'
          × IsWithin 256 t'
          × ((k v : U256) → Contains k v t' ↔ (((key ≡ k) × (value ≡ v)) ⊎ Contains k v t))
          × (m : Map (List U256)) × (insert_leaf perm perm₃ auth key value w
              ≡ ok tt (record w {
                root = some (root_hash perm perm₃ t');
                nodes = m;
                events = Event.leaf_inserted key value (root_hash perm perm₃ t') ∷ w.events;
              }))
    insert_leaf-grows permutes permutes₃ key_in value_in out =
        let bits = split_bits key in
        let (m, e) = insert_leaf-root permutes permutes₃ key_in value_in out in
        let size = length-split_bits key in
        let within = rw (← size) at held.within in
        let apart : IsApart 0 bits t = EveryKey-IsApart key t (omega arith) held.keys out in
        (
          insert_tree key value t,
          insert_at-IsPlaced 0 bits key value t refl held.placed,
          rw size at (insert_at-IsWithin 0 bits key value t within),
          (λ k v.
              insert_at-Contains 0 bits key value k v t (omega (arith, size)) held.placed within
                apart),
          m,
          e,
        )
