-- ===== src/Prover/Sparse/Agree.antt =====
-- The client's tree and the contract's, where they hold the same leaves: the same searches, and the
-- same roots.
use paymage.Base.{
  ◌+◌, not, ◌≡◌, ◌≤◌, true, some, List, length, arith, refl, ap, ◌∙◌, if◌then◌else◌, Map,
}
use paymage.Host.Outcome.{ok, err, fail_if, >>=-ok}
use paymage.Host.Interface.{Address, U256, Auth}
use paymage.Poseidon.{InField, Permutes}
use paymage.Planner.Facts.{ok_or-eq_ok}
use paymage.NonMembership.Defs.{World, FindResult, split_bits, find_key}
use paymage.NonMembership.Defs
use paymage.NonMembership.Insert.{insert_leaf}
use paymage.NonMembership.Delete.{pop_back}
use paymage.NonMembership.Smt.{Smt, HasKey, IsWithin, root_hash, IsSmt}
use paymage.NonMembership.Facts.{length-split_bits}
use paymage.NonMembership.Grow.{
  answer_of, all_siblings, IsApart, folded-insert_at, insert_tree, EveryKey-IsApart,
}
use paymage.NonMembership.Present.{
  IsWithin-more, replace, answer_of-absent, answer_of-present, length-answer_of, folded-replace,
}
use paymage.NonMembership.Added.{length-all_siblings}
use paymage.NonMembership.Hashes.{Permutes₃}
use paymage.NonMembership.Rebuilt.{run_up, run_up-folded}
use paymage.NonMembership.Inserted.{search, insert_leaf-root, insert_leaf-again}
use paymage.Prover.Sparse.Defs.{
  Node, SparseMerkleTree, SmtResult, Error, find, extend_siblings, trim_zeros, write_path, insert,
  update,
}
use paymage.Prover.Sparse.Correct.{Holds, find-answer_of, write_path-run_up}

module _ (perm : U256 → U256 → U256) (perm₃ : U256 → U256 → U256 → U256) (c : SparseMerkleTree)
    (t : Smt) (h : Holds perm perm₃ c t) (key : U256) where
  -- Where the client and the contract hold the same tree, the client's `find` and the contract's
  -- `find_key` give the same result for every key, and neither fails.
  pub find-find_key :
      (w : World)
      → IsSmt perm perm₃ w t
      → (r : FindResult) × (find key c ≡ ok r c) × (find_key key w ≡ ok r w)
  unfolding find_key
  find-find_key w held = (
    answer_of perm perm₃ key (split_bits key) t,
    find-answer_of perm perm₃ c t key h,
    ok_or-eq_ok Defs.Error.key_not_found w (search perm perm₃ w t held key),
  )

  within : IsWithin (length (split_bits key)) t
  within =
      IsWithin-more t 255 (length (split_bits key)) (omega (arith, length-split_bits key)) h.within

  -- For a key that the tree has, the client's `insert` returns an error, and so does the contract's
  -- `insert_leaf` by the administrator in a world that holds the same tree.
  pub insert-insert_leaf-refuse :
      (value : U256) (w : World)
      → IsSmt perm perm₃ w t
      → (admin : Address) (auth : Auth) → w.admin ≡ some admin
      → auth admin ≡ true
      → HasKey key t
      → (insert perm perm₃ key value c ≡ err Error.key_already_exists)
        × (insert_leaf perm perm₃ auth key value w ≡ err Defs.Error.key_already_exists)
  unfolding insert
  insert-insert_leaf-refuse value w held admin auth set allowed has =
      let present =
        answer_of-present perm perm₃ key t 0 (split_bits key) refl h.placed within has in
      (
        >>=-ok (find key) _ (find-answer_of perm perm₃ c t key h) ∙ rw present refl,
        insert_leaf-again perm perm₃ w t held key admin auth set allowed value has,
      )

  -- For a key that the tree does not have, the client's `update` returns an error.
  pub update-missing :
      (value : U256) → ¬ HasKey key t → update perm perm₃ key value c ≡ err Error.key_does_not_exist
  unfolding update
  update-missing value out =
      let absent = answer_of-absent perm perm₃ key t (split_bits key) out in
      >>=-ok (find key) _ (find-answer_of perm perm₃ c t key h) ∙ rw absent refl

  module _ (value : U256) where
    -- The result of an insertion.
    abbrev told : U256 → List U256 → SmtResult
    told new_root ss =
        let r = answer_of perm perm₃ key (split_bits key) t in
        record {
          old_root = c.root;
          new_root = new_root;
          siblings = ss;
          old_key = r.not_found_key;
          old_value = r.not_found_value;
          new_key = key;
          new_value = value;
          is_old0 = r.is_old0;
        }

    -- A new key is inserted, and the root is that of the tree with the new leaf.
    insert-root :
        InField key
        → ¬ HasKey key t
        → (db : Map Node) × (ss : List U256) × (insert perm perm₃ key value c
            ≡ ok
                (told (root_hash perm perm₃ (insert_tree key value t)) ss)
                (record { db = db; root = root_hash perm perm₃ (insert_tree key value t) }))
    unfolding insert extend_siblings
    insert-root key_in out =
        let bits = split_bits key in
        let r = answer_of perm perm₃ key bits t in
        let absent = answer_of-absent perm perm₃ key t bits out in
        let ss = all_siblings perm perm₃ 0 bits r in
        let sum : 0 + length bits ≡ 256 = omega (arith, length-split_bits key) in
        let apart : IsApart 0 bits t = EveryKey-IsApart key t (omega arith) h.keys out in
        let room : length ss ≤ length bits =
          length-all_siblings perm perm₃ key t 0 bits sum h.placed within apart absent in
        let leaf = perm₃ key value 1 in
        let (db, run) = write_path-run_up perm perm₃ c bits ss key value room in
        let made : run_up perm perm₃ bits ss (length ss) leaf
            ≡ root_hash perm perm₃ (insert_tree key value t) =
          run_up-folded perm perm₃ bits ss leaf room
          ∙ folded-insert_at perm perm₃ key value t 0 bits sum h.placed within apart absent in
        let shown = if r.is_old0 then trim_zeros ss else pop_back (trim_zeros ss) in
        let fresh : fail_if r.found Error.key_already_exists c ≡ ok tt c = rw absent refl in
        (
          db,
          shown,
          >>=-ok (find key) _ (find-answer_of perm perm₃ c t key h)
              ∙ >>=-ok (fail_if r.found Error.key_already_exists) _ fresh
              ∙ >>=-ok (write_path perm perm₃ bits ss key value) _ run
              ∙ ap (λ x. ok (told x shown) (record { db = db; root = x })) made,
        )

    -- Where the client and the contract hold the same tree without the key, the client's `insert` and
    -- the contract's `insert_leaf` by the administrator both succeed and reach the same root, given that
    -- the permutation's outputs are field elements; the client's result tells the old and the new root.
    pub insert-insert_leaf :
        (w : World)
        → IsSmt perm perm₃ w t
        → (admin : Address) (auth : Auth) → w.admin ≡ some admin
        → auth admin ≡ true
        → Permutes perm
        → Permutes₃ perm₃
        → InField key
        → InField value
        → ¬ HasKey key t
        → (x : SmtResult) × (c' : SparseMerkleTree) × (w' : World) × (insert perm perm₃ key value c
            ≡ ok x c')
          × (insert_leaf perm perm₃ auth key value w ≡ ok tt w')
          × (w'.root ≡ some c'.root)
          × (x.new_root ≡ c'.root)
          × (x.old_root ≡ c.root)
    insert-insert_leaf w held admin auth set allowed permutes permutes₃ key_in value_in out =
        let (db, ss, inserted) = insert-root key_in out in
        let (m, added) =
          insert_leaf-root perm perm₃ w t held key admin auth set allowed value permutes permutes₃
            key_in value_in out in
        let r = answer_of perm perm₃ key (split_bits key) t in
        let top = root_hash perm perm₃ (insert_tree key value t) in
        (_, _, _, inserted, added, refl, refl, refl)

    -- For a key that the tree has, the client's `update` succeeds, and the new root is that of the tree
    -- with the key's value replaced; the result tells both roots.
    pub update-replace :
        HasKey key t
        → (x : SmtResult) × (c' : SparseMerkleTree) × (update perm perm₃ key value c ≡ ok x c')
          × (c'.root ≡ root_hash perm perm₃ (replace key value t))
          × (x.new_root ≡ c'.root)
          × (x.old_root ≡ c.root)
    unfolding update
    update-replace has =
        let bits = split_bits key in
        let r = answer_of perm perm₃ key bits t in
        let present = answer_of-present perm perm₃ key t 0 bits refl h.placed within has in
        let room = length-answer_of perm perm₃ key t bits in
        let leaf = perm₃ key value 1 in
        let (db, run) = write_path-run_up perm perm₃ c bits r.siblings key value room in
        let there : fail_if (not r.found) Error.key_does_not_exist c ≡ ok tt c = rw present refl in
        (
          _,
          _,
          >>=-ok (find key) _ (find-answer_of perm perm₃ c t key h)
              ∙ >>=-ok (fail_if (not r.found) Error.key_does_not_exist) _ there
              ∙ >>=-ok (write_path perm perm₃ bits r.siblings key value) _ run,
          run_up-folded perm perm₃ bits r.siblings leaf room
              ∙ folded-replace perm perm₃ key value t 0 bits refl h.placed within present,
          refl,
          refl,
        )
