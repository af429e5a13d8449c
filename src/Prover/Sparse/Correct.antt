-- ===== src/Prover/Sparse/Correct.antt =====
-- The client's tree by what it holds.
use paymage.Base.{
  ℕ, zero, suc, ◌==◌, ◌≡◌, ◌≢◌, ◌≤◌, Bool, true, false, some, List, [], ◌∷◌, reverse, length,
  get_elem?, get_or, arith, refl, ap, ◌∙◌, sym, Bool-cases, inl, inr, if◌then◌else◌, Map,
  insert as map_insert,
}
use mathlib.Core.List.{reverse-cons, reverse-reverse}
use paymage.Host.Outcome.{ok, ⊤, or_trap, pure, modify, ◌>>=◌, ◌>>◌, >>=-ok}
use paymage.Host.Interface.{U256}
use paymage.Poseidon.{hash, InField}
use paymage.Planner.Facts.{or_trap-eq_ok}
use paymage.NonMembership.Defs.{FindResult, at_leaf, split_bits}
use paymage.NonMembership.Smt.{Smt, EveryKey, IsPlaced, IsWithin, root_hash}
use paymage.NonMembership.Facts.{length-split_bits}
use paymage.NonMembership.Grow.{answer_of}
use paymage.NonMembership.Rebuilt.{run_up, get_elem?-within}
use paymage.Prover.Sparse.Defs.{
  Node, SparseMerkleTree, M, get_node, put_node, push_sibling, visit, find_internal, find, rebuild,
  write_path,
}

module _ (perm : U256 → U256 → U256) (perm₃ : U256 → U256 → U256 → U256) where
  -- The database holds the nodes of the tree, each under its hash, and none of these is zero.
  abbrev pub IsStored : Map Node → Smt → Type 0
  IsStored db Smt.empty = ⊤
  IsStored db (Smt.leaf k v) = (db (perm₃ k v 1) ≡ some (Node.leaf k v)) × (perm₃ k v 1 ≢ 0)
  IsStored db (Smt.node l r) =
      (db (root_hash perm perm₃ (Smt.node l r))
        ≡ some (Node.internal (root_hash perm perm₃ l) (root_hash perm perm₃ r)))
      × (root_hash perm perm₃ (Smt.node l r) ≢ 0)
      × IsStored db l
      × IsStored db r

  -- The client holds the tree, with room for one more level.
  pub record Holds (c : SparseMerkleTree) (t : Smt) : Type 0 where
    pub root : c.root ≡ root_hash perm perm₃ t
    pub stored : IsStored c.db t
    pub placed : IsPlaced 0 t
    pub within : IsWithin 255 t
    pub keys : EveryKey InField t

  -- The answer with its siblings from the last one up.
  abbrev upward : FindResult → FindResult
  upward r = record r { siblings = reverse r.siblings }

  module _ (c : SparseMerkleTree) (key : U256) (b : Bool) (below : U256 → M FindResult) (h : U256)
      (positive : h ≢ 0) where
    nonzero : (h == 0) ≡ false
    nonzero = ground (arith, positive)

    there : (n : Node) → c.db h ≡ some n → get_node h c ≡ some n
    there n e = rw (nonzero, e) refl

    visit-leaf :
        (k v : U256)
        → c.db h ≡ some (Node.leaf k v)
        → visit key b h below c ≡ ok (at_leaf key k v) c
    visit-leaf k v e = let got = there (Node.leaf k v) e in rw (visit, nonzero, got) refl

    visit-internal :
        (l r : U256) (x : FindResult)
        → c.db h ≡ some (Node.internal l r)
        → below (if b then r else l) c ≡ ok x c
        → visit key b h below c ≡ ok (push_sibling (if b then l else r) x) c
    visit-internal l r x e found =
        let got = there (Node.internal l r) e in
        rw (visit, nonzero, got) (>>=-ok (below (if b then r else l)) _ found)

  at_leaf-upward : (key k v : U256) → at_leaf key k v ≡ upward (at_leaf key k v)
  at_leaf-upward key k v = elim (Bool-cases (k == key)) [
    | inl same ↦ rw same refl
    | inr other ↦ rw other refl
  ]

  push_sibling-upward :
      (s : U256) (r : FindResult)
      → push_sibling s (upward r) ≡ upward (record r { siblings = s ∷ r.siblings })
  push_sibling-upward s r =
      ap (λ (xs : List U256). record r { siblings = xs }) (sym (reverse-cons s r.siblings))

  find_internal-answer_of :
      (c : SparseMerkleTree) (key : U256) (t : Smt) (b : Bool) (bits : List Bool)
      → IsStored c.db t
      → IsWithin (length bits) t
      → find_internal key (b ∷ bits) (root_hash perm perm₃ t) c
        ≡ ok (upward (answer_of perm perm₃ key (b ∷ bits) t)) c
  unfolding find_internal
  find_internal-answer_of c key Smt.empty b bits s d = refl
  find_internal-answer_of c key (Smt.leaf k v) b bits s d =
      visit-leaf c key b (find_internal key bits) (perm₃ k v 1) s.1 k v s.0
      ∙ ap (λ r. ok r c) (at_leaf-upward key k v)
  find_internal-answer_of c key (Smt.node l r) b [] s d = elim d [ ]
  find_internal-answer_of c key (Smt.node l r) true (b ∷ bs) s d =
      let hl = root_hash perm perm₃ l in
      let hr = root_hash perm perm₃ r in
      let x = answer_of perm perm₃ key (b ∷ bs) r in
      visit-internal c key true (find_internal key (b ∷ bs)) (hash perm hl hr) s.1 hl hr (upward x)
        s.0 (find_internal-answer_of c key r b bs s.3 d.1)
      ∙ ap (λ r. ok r c) (push_sibling-upward hl x)
  find_internal-answer_of c key (Smt.node l r) false (b ∷ bs) s d =
      let hl = root_hash perm perm₃ l in
      let hr = root_hash perm perm₃ r in
      let x = answer_of perm perm₃ key (b ∷ bs) l in
      visit-internal c key false (find_internal key (b ∷ bs)) (hash perm hl hr) s.1 hl hr (upward x)
        s.0 (find_internal-answer_of c key l b bs s.2 d.0)
      ∙ ap (λ r. ok r c) (push_sibling-upward hr x)

  -- `find` gives what the search in the tree ends with.
  pub find-answer_of :
      (c : SparseMerkleTree) (t : Smt) (key : U256)
      → Holds c t
      → find key c ≡ ok (answer_of perm perm₃ key (split_bits key) t) c
  unfolding find
  find-answer_of c t key h =
      let r = answer_of perm perm₃ key (split_bits key) t in
      let run : find_internal key (split_bits key) c.root c ≡ ok (upward r) c =
        ap (λ x. find_internal key (split_bits key) x c) h.root
        ∙ at_bits (split_bits key) (length-split_bits key) in
      >>=-ok (find_internal key (split_bits key) c.root) _ run
      ∙ ap (λ (xs : List U256). ok (record r { siblings = xs }) c) (reverse-reverse r.siblings)
    where
      at_bits :
          (bits : List Bool)
          → length bits ≡ 256
          → find_internal key bits (root_hash perm perm₃ t) c
            ≡ ok (upward (answer_of perm perm₃ key bits t)) c
      at_bits [] e = absurd (omega arith)
      at_bits (b ∷ bs) e =
          let size : length bs ≡ 255 = omega arith in
          find_internal-answer_of c key t b bs h.stored (rw (← size) at h.within)

  put_node-ok :
      (c : SparseMerkleTree) (h : U256) (n : Node)
      → (db : Map Node) × (put_node h n c ≡ ok tt (record c { db = db }))
  put_node-ok c h n = elim (Bool-cases (h == 0)) [
    | inl nothing ↦ (c.db, rw nothing refl)
    | inr something ↦ (map_insert h n c.db, rw something refl)
  ]

  -- Each level of `rebuild` hashes as the tree does, and changes the database only.
  rebuild-run_up :
      (c : SparseMerkleTree) (bits : List Bool) (ss : List U256) (n : ℕ) (h : U256)
      → n ≤ length ss
      → length ss ≤ length bits
      → (db : Map Node) × (rebuild perm perm₃ bits ss n h c
          ≡ ok (run_up perm perm₃ bits ss n h) (record c { db = db }))
  unfolding rebuild
  rebuild-run_up c bits ss zero h le room = (c.db, refl)
  rebuild-run_up c bits ss (suc i) h le room =
      let s = get_or ss i 0 in
      let bit = get_or bits i false in
      let left = if bit then s else h in
      let right = if bit then h else s in
      let above = hash perm left right in
      let (db, put) = put_node-ok c above (Node.internal left right) in
      let (db', rest) = rebuild-run_up (record c { db = db }) bits ss i above (omega arith) room in
      (
        db',
        >>=-ok (or_trap (get_elem? ss i)) _
              (or_trap-eq_ok c (get_elem?-within ss i 0 (omega arith)))
            ∙ >>=-ok (or_trap (get_elem? bits i)) _
                (or_trap-eq_ok c (get_elem?-within bits i false (omega arith)))
            ∙ >>=-ok (put_node above (Node.internal left right))
                (λ u. rebuild perm perm₃ bits ss i above) put
            ∙ rest
            ∙ ap (λ x. ok (run_up perm perm₃ bits ss i x) (record c { db = db' })) (joined bit s h),
      )
    where
      joined :
          (b : Bool) (s h : U256)
          → hash perm (if b then s else h) (if b then h else s)
            ≡ (if b then hash perm s h else hash perm h s)
      joined true s h = refl
      joined false s h = refl

  -- A leaf written along siblings: the root is the hash along them, and nothing else but the database
  -- changes.
  pub write_path-run_up :
      (c : SparseMerkleTree) (bits : List Bool) (ss : List U256) (key value : U256)
      → length ss ≤ length bits
      → (db : Map Node) × (write_path perm perm₃ bits ss key value c
          ≡ ok (run_up perm perm₃ bits ss (length ss) (perm₃ key value 1)) (record {
            db = db;
            root = run_up perm perm₃ bits ss (length ss) (perm₃ key value 1);
          }))
  unfolding write_path
  write_path-run_up c bits ss key value room =
      let leaf = perm₃ key value 1 in
      let (db, put) = put_node-ok c leaf (Node.leaf key value) in
      let (db', run) =
        rebuild-run_up (record c { db = db }) bits ss (length ss) leaf (omega arith) room in
      let finish : U256 → M U256 = λ x. modify (λ t. record t { root = x }) >> pure x in
      let climb = rebuild perm perm₃ bits ss (length ss) leaf in
      (
        db',
        >>=-ok (put_node leaf (Node.leaf key value)) (λ u. climb >>= finish) put
            ∙ >>=-ok climb finish run,
      )
