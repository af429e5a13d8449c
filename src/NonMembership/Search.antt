-- ===== src/NonMembership/Search.antt =====
-- The search in the storage is the search in the tree.
use paymage.Base.{
  ℕ, suc, ◌+◌, ◌==◌, ◌≡◌, ◌≢◌, ◌≤◌, Bool, true, false, some, List, [], ◌∷◌, length, get_elem?, All,
  arith, refl, ap, ◌∙◌, Bool-cases, if◌then◌else◌, Map, ◌⊎◌, inl, inr,
}
use paymage.Host.Interface.{U256}
use paymage.Poseidon.{hash}
use paymage.NonMembership.Defs.{
  FindResult, at_empty, at_leaf, push_front, find_key_internal, split_bits,
}
use paymage.NonMembership.Smt.{
  Smt, HasKey, Contains, EveryKey, IsPlaced, IsWithin, root_hash, IsStored,
}

pub HasKey-Every : (P : U256 → Type 0) (t : Smt) (key : U256) → EveryKey P t → HasKey key t → P key
HasKey-Every P Smt.empty key h k = elim k [ ]
HasKey-Every P (Smt.leaf a b) key h k = rw (← k) h
HasKey-Every P (Smt.node l r) key h (inl k) = HasKey-Every P l key h.0 k
HasKey-Every P (Smt.node l r) key h (inr k) = HasKey-Every P r key h.1 k

module _ (perm : U256 → U256 → U256) (perm₃ : U256 → U256 → U256 → U256) where
  -- The tree's hashes along the siblings, from the last level up.
  abbrev pub folded : List Bool → List U256 → U256 → U256
  folded bits [] start = start
  folded [] (s ∷ ss) start = start
  folded (b ∷ bs) (s ∷ ss) start =
      let below = folded bs ss start in if b then hash perm s below else hash perm below s

  -- Where the path of a key that is not there ends: at nothing, or at another key's leaf.
  abbrev pub IsEnd : U256 → FindResult → U256 → Smt → Type 0
  IsEnd key r start t =
      ((r.not_found_key ≡ key) × (r.not_found_value ≡ 0) × (start ≡ 0))
      ⊎ ((r.not_found_key ≢ key)
          × Contains r.not_found_key r.not_found_value t
          × (start ≡ perm₃ r.not_found_key r.not_found_value 1))

  -- What the search below a hash has found.
  pub record IsAnswer (key : U256) (bits : List Bool) (t : Smt) (r : FindResult) : Type 0 where
    pub present : r.found ≡ true → Contains key r.found_value t
    pub absent : r.found ≡ false → ¬ HasKey key t
    pub start : U256
    pub ends : r.found ≡ false → IsEnd key r start t
    pub path : r.found ≡ false → folded bits r.siblings start ≡ root_hash perm perm₃ t
    pub short : length r.siblings ≤ length bits
    pub subtrees : All (λ h. (s : Smt) × (h ≡ root_hash perm perm₃ s)) r.siblings

  -- The key's bits from a level on.
  abbrev pub Bits : U256 → ℕ → List Bool → Type 0
  Bits key level bits = (j : ℕ) → get_elem? (split_bits key) (level + j) ≡ get_elem? bits j

  Bits-tail :
      (key : U256) (level : ℕ) (b : Bool) (bs : List Bool)
      → Bits key level (b ∷ bs)
      → Bits key (suc level) bs
  Bits-tail key level b bs h j =
      let e : suc level + j ≡ level + suc j = omega arith in rw e (h (suc j))

  Bits-head :
      (key : U256) (level : ℕ) (b : Bool) (bs : List Bool)
      → Bits key level (b ∷ bs)
      → get_elem? (split_bits key) level ≡ some b
  Bits-head key level b bs h = let e : level + 0 ≡ level = omega arith in rw e at (h 0)

  module _ (nodes : Map (List U256)) (key : U256) where
    pub visit-empty : (bits : List Bool) → find_key_internal nodes key bits 0 ≡ some (at_empty key)
    unfolding find_key_internal
    visit-empty [] = refl
    visit-empty (b ∷ bs) = refl

    pub visit-leaf :
        (bits : List Bool) (h k v : U256)
        → nodes h ≡ some (1 ∷ k ∷ v ∷ [])
        → h ≢ 0
        → find_key_internal nodes key bits h ≡ some (at_leaf key k v)
    unfolding find_key_internal
    visit-leaf [] h k v e ne = let z : (h == 0) ≡ false = ground (arith, ne) in rw (z, e) refl
    visit-leaf (b ∷ bs) h k v e ne = let z : (h == 0) ≡ false = ground (arith, ne) in rw (z, e) refl

    pub visit-node :
        (b : Bool) (bits : List Bool) (h l r : U256)
        → nodes h ≡ some (l ∷ r ∷ [])
        → h ≢ 0
        → find_key_internal nodes key (b ∷ bits) h ≡ (
            if b
            then push_front l (find_key_internal nodes key bits r)
            else push_front r (find_key_internal nodes key bits l))
    unfolding find_key_internal
    visit-node b bits h l r e ne = let z : (h == 0) ≡ false = ground (arith, ne) in rw (z, e) refl

    empty-IsAnswer : (bits : List Bool) → IsAnswer key bits Smt.empty (at_empty key)
    empty-IsAnswer bits = record {
      present = λ e. cc;
      absent = λ e h. h;
      start = 0;
      ends = λ e. inl (refl, refl, refl);
      path = λ e. refl;
      short = omega arith;
      subtrees = tt;
    }

    leaf-IsAnswer :
        (bits : List Bool) (k v : U256) → IsAnswer key bits (Smt.leaf k v) (at_leaf key k v)
    leaf-IsAnswer bits k v = elim (Bool-cases (k == key)) [
      | inl same ↦ rw same (record {
        present = λ e. (ground arith, refl);
        absent = λ e. cc;
        start = 0;
        ends = λ e. cc;
        path = λ e. cc;
        short = omega arith;
        subtrees = tt;
      })
      | inr other ↦ rw other (record {
        present = λ e. cc;
        absent = λ e h. ground arith;
        start = perm₃ k v 1;
        ends = λ e. inr (ground arith, (refl, refl), refl);
        path = λ e. refl;
        short = omega arith;
        subtrees = tt;
      })
    ]

    -- The answer at an inner node, by the answer at the child that the key's bit leads to.
    right-IsAnswer :
        (level : ℕ) (bs : List Bool) (l r : Smt) (x : FindResult)
        → get_elem? (split_bits key) level ≡ some true
        → EveryKey (λ k. get_elem? (split_bits k) level ≡ some false) l
        → IsAnswer key bs r x
        → IsAnswer key
            (true ∷ bs)
            (Smt.node l r)
            (record x { siblings = root_hash perm perm₃ l ∷ x.siblings })
    right-IsAnswer level bs l r x bit placed a = record {
      present = λ e. inr (a.present e);
      absent = λ e h. elim h [
        | inl k ↦
            let q =
              HasKey-Every (λ k. get_elem? (split_bits k) level ≡ some false) l key placed k in
            cc
        | inr k ↦ a.absent e k
      ];
      start = a.start;
      ends = λ e. elim (a.ends e) [ inl q ↦ inl q | inr q ↦ inr (q.0, inr q.1, q.2) ];
      path = λ e. ap (hash perm (root_hash perm perm₃ l)) (a.path e);
      short = omega (arith, a.short);
      subtrees = ((l, refl), a.subtrees);
    }

    left-IsAnswer :
        (level : ℕ) (bs : List Bool) (l r : Smt) (x : FindResult)
        → get_elem? (split_bits key) level ≡ some false
        → EveryKey (λ k. get_elem? (split_bits k) level ≡ some true) r
        → IsAnswer key bs l x
        → IsAnswer key
            (false ∷ bs)
            (Smt.node l r)
            (record x { siblings = root_hash perm perm₃ r ∷ x.siblings })
    left-IsAnswer level bs l r x bit placed a = record {
      present = λ e. inl (a.present e);
      absent = λ e h. elim h [
        | inl k ↦ a.absent e k
        | inr k ↦
            let q = HasKey-Every (λ k. get_elem? (split_bits k) level ≡ some true) r key placed k in
            cc
      ];
      start = a.start;
      ends = λ e. elim (a.ends e) [ inl q ↦ inl q | inr q ↦ inr (q.0, inl q.1, q.2) ];
      path = λ e. ap (λ h. hash perm h (root_hash perm perm₃ r)) (a.path e);
      short = omega (arith, a.short);
      subtrees = ((r, refl), a.subtrees);
    }

    -- The search below the hash of a stored tree ends with the tree's answer.
    pub find_key_internal-IsAnswer :
        (t : Smt) (level : ℕ) (bits : List Bool)
        → Bits key level bits
        → IsStored perm perm₃ nodes t
        → IsPlaced level t
        → IsWithin (length bits) t
        → (r : FindResult) × (find_key_internal nodes key bits (root_hash perm perm₃ t) ≡ some r)
          × IsAnswer key bits t r
    find_key_internal-IsAnswer Smt.empty level bits b s p d =
        (at_empty key, visit-empty bits, empty-IsAnswer bits)
    find_key_internal-IsAnswer (Smt.leaf k v) level bits b s p d =
        (at_leaf key k v, visit-leaf bits (perm₃ k v 1) k v s.0 s.1, leaf-IsAnswer bits k v)
    find_key_internal-IsAnswer (Smt.node l r) level [] b s p d = elim d [ ]
    find_key_internal-IsAnswer (Smt.node l r) level (true ∷ bs) b s p d =
        let (x, e, a) =
          find_key_internal-IsAnswer r (suc level) bs (Bits-tail key level true bs b) s.3 p.3 d.1 in
        let hl = root_hash perm perm₃ l in
        let hr = root_hash perm perm₃ r in
        (
          record x { siblings = hl ∷ x.siblings },
          visit-node true bs (hash perm hl hr) hl hr s.0 s.1 ∙ ap (push_front hl) e,
          right-IsAnswer level bs l r x (Bits-head key level true bs b) p.0 a,
        )
    find_key_internal-IsAnswer (Smt.node l r) level (false ∷ bs) b s p d =
        let (x, e, a) =
          find_key_internal-IsAnswer l (suc level) bs (Bits-tail key level false bs b) s.2 p.2
            d.0 in
        let hl = root_hash perm perm₃ l in
        let hr = root_hash perm perm₃ r in
        (
          record x { siblings = hr ∷ x.siblings },
          visit-node false bs (hash perm hl hr) hl hr s.0 s.1 ∙ ap (push_front hr) e,
          left-IsAnswer level bs l r x (Bits-head key level false bs b) p.1 a,
        )
