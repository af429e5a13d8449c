-- ===== src/NonMembership/Present.antt =====
-- What the search in a tree says of a key that is there, of one that is not, and of the root once a
-- value is replaced.
use paymage.Base.{
  ℕ, zero, suc, ◌==◌, ◌≡◌, ◌≢◌, ◌≤◌, Bool, true, false, some, List, [], ◌∷◌, length, get_elem?,
  arith, refl, ap, ◌∙◌, Bool-cases, if◌then◌else◌, inl, inr,
}
use paymage.Host.Interface.{U256}
use paymage.Poseidon.{hash}
use paymage.NonMembership.Defs.{split_bits}
use paymage.NonMembership.Smt.{Smt, HasKey, EveryKey, IsPlaced, IsWithin, root_hash}
use paymage.NonMembership.Search.{folded, HasKey-Every}
use paymage.NonMembership.Bits.{from, from-tail, get-from}
use paymage.NonMembership.Grow.{answer_of}

-- The tree with another value for a key.
abbrev pub replace : U256 → U256 → Smt → Smt
replace key value Smt.empty = Smt.empty
replace key value (Smt.leaf k v) = if k == key then Smt.leaf k value else Smt.leaf k v
replace key value (Smt.node l r) = Smt.node (replace key value l) (replace key value r)

replace-absent : (key value : U256) (t : Smt) → ¬ HasKey key t → replace key value t ≡ t
replace-absent key value Smt.empty out = refl
replace-absent key value (Smt.leaf k v) out =
    let other : (k == key) ≡ false = ground (arith, out) in rw other refl
replace-absent key value (Smt.node l r) out =
    ap (λ x. Smt.node x (replace key value r)) (replace-absent key value l (λ h. out (inl h)))
    ∙ ap (Smt.node l) (replace-absent key value r (λ h. out (inr h)))

-- Where the bit of the key leads away from a subtree, the key is not in it.
elsewhere :
    (level : ℕ) (key : U256) (b b' : Bool) (bs : List Bool) (t : Smt)
    → b ≢ b'
    → from level (split_bits key) ≡ b ∷ bs
    → EveryKey (λ k. get_elem? (split_bits k) level ≡ some b') t
    → ¬ HasKey key t
elsewhere level key b b' bs t ne e placed h =
    let p = HasKey-Every (λ k. get_elem? (split_bits k) level ≡ some b') t key placed h in
    let q = get-from level (split_bits key) b bs e in ne cc

pub IsWithin-more : (t : Smt) (n m : ℕ) → n ≤ m → IsWithin n t → IsWithin m t
IsWithin-more Smt.empty n m le d = tt
IsWithin-more (Smt.leaf k v) n m le d = tt
IsWithin-more (Smt.node l r) zero m le d = elim d [ ]
IsWithin-more (Smt.node l r) (suc n) zero le d = absurd (omega arith)
IsWithin-more (Smt.node l r) (suc n) (suc m) le d =
    (IsWithin-more l n m (omega arith) d.0, IsWithin-more r n m (omega arith) d.1)

module _ (perm : U256 → U256 → U256) (perm₃ : U256 → U256 → U256 → U256) where
  found-HasKey :
      (key : U256) (t : Smt) (bits : List Bool)
      → (answer_of perm perm₃ key bits t).found ≡ true
      → HasKey key t
  found-HasKey key Smt.empty bits f = cc
  found-HasKey key (Smt.leaf k v) bits f = elim (Bool-cases (k == key)) [
    | inl same ↦ ground arith
    | inr other ↦ let no : false ≡ true = rw other at f in cc
  ]
  found-HasKey key (Smt.node l r) [] f = cc
  found-HasKey key (Smt.node l r) (true ∷ bs) f = inr (found-HasKey key r bs f)
  found-HasKey key (Smt.node l r) (false ∷ bs) f = inl (found-HasKey key l bs f)

  pub answer_of-absent :
      (key : U256) (t : Smt) (bits : List Bool)
      → ¬ HasKey key t
      → (answer_of perm perm₃ key bits t).found ≡ false
  answer_of-absent key t bits out = elim (Bool-cases (answer_of perm perm₃ key bits t).found) [
    | inl f ↦ absurd (out (found-HasKey key t bits f))
    | inr f ↦ f
  ]

  pub answer_of-present :
      (key : U256) (t : Smt) (level : ℕ) (bits : List Bool)
      → from level (split_bits key) ≡ bits
      → IsPlaced level t
      → IsWithin (length bits) t
      → HasKey key t
      → (answer_of perm perm₃ key bits t).found ≡ true
  answer_of-present key Smt.empty level bits e p d h = elim h [ ]
  answer_of-present key (Smt.leaf k v) level bits e p d h =
      let same : (k == key) ≡ true = ground arith in rw same refl
  answer_of-present key (Smt.node l r) level [] e p d h = elim d [ ]
  answer_of-present key (Smt.node l r) level (true ∷ bs) e p d (inl h) =
      absurd (elsewhere level key true false bs l (λ q. cc) e p.0 h)
  answer_of-present key (Smt.node l r) level (true ∷ bs) e p d (inr h) =
      answer_of-present key r (suc level) bs (from-tail level (split_bits key) true bs e) p.3 d.1 h
  answer_of-present key (Smt.node l r) level (false ∷ bs) e p d (inl h) =
      answer_of-present key l (suc level) bs (from-tail level (split_bits key) false bs e) p.2 d.0 h
  answer_of-present key (Smt.node l r) level (false ∷ bs) e p d (inr h) =
      absurd (elsewhere level key false true bs r (λ q. cc) e p.1 h)

  pub length-answer_of :
      (key : U256) (t : Smt) (bits : List Bool)
      → length (answer_of perm perm₃ key bits t).siblings ≤ length bits
  length-answer_of key Smt.empty bits = omega arith
  length-answer_of key (Smt.leaf k v) bits = elim (Bool-cases (k == key)) [
    | inl same ↦ rw same (omega arith)
    | inr other ↦ rw other (omega arith)
  ]
  length-answer_of key (Smt.node l r) [] = omega arith
  length-answer_of key (Smt.node l r) (true ∷ bs) = omega (arith, length-answer_of key r bs)
  length-answer_of key (Smt.node l r) (false ∷ bs) = omega (arith, length-answer_of key l bs)

  -- Along the siblings of a key that is there, the hashes with another value are those of the tree
  -- with it replaced.
  pub folded-replace :
      (key value : U256) (t : Smt) (level : ℕ) (bits : List Bool)
      → from level (split_bits key) ≡ bits
      → IsPlaced level t
      → IsWithin (length bits) t
      → (answer_of perm perm₃ key bits t).found ≡ true
      → folded perm perm₃ bits (answer_of perm perm₃ key bits t).siblings (perm₃ key value 1)
        ≡ root_hash perm perm₃ (replace key value t)
  folded-replace key value Smt.empty level bits e p d f = cc
  folded-replace key value (Smt.leaf k v) level bits e p d f = elim (Bool-cases (k == key)) [
    | inl same ↦ let eq : key ≡ k = ground arith in rw same (ap (λ x. perm₃ x value 1) eq)
    | inr other ↦ let no : false ≡ true = rw other at f in cc
  ]
  folded-replace key value (Smt.node l r) level [] e p d f = elim d [ ]
  folded-replace key value (Smt.node l r) level (true ∷ bs) e p d f =
      let away = replace-absent key value l (elsewhere level key true false bs l (λ q. cc) e p.0) in
      rw away (
        ap (hash perm (root_hash perm perm₃ l)) (
          folded-replace key value r (suc level) bs (from-tail level (split_bits key) true bs e) p.3
            d.1 f))
  folded-replace key value (Smt.node l r) level (false ∷ bs) e p d f =
      let away = replace-absent key value r (elsewhere level key false true bs r (λ q. cc) e p.1) in
      rw away (
        ap (λ x. hash perm x (root_hash perm perm₃ r))
          (folded-replace key value l (suc level) bs (from-tail level (split_bits key) false bs e)
            p.2 d.0 f))
