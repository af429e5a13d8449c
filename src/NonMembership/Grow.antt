-- ===== src/NonMembership/Grow.antt =====
-- Sparse trees that grow by a leaf: where a key is not there, the search says all that the new root
-- is made of.
use paymage.Base.{
  ℕ, suc, ◌+◌, ◌^◌, ◌==◌, ◌≡◌, ◌≢◌, ◌<◌, Bool, true, false, some, List, [], ◌∷◌, ◌++◌, length,
  get_elem?, arith, refl, ap, ◌∙◌, Bool-cases, if◌then◌else◌, Map, inl, inr,
}
use paymage.Host.Interface.{U256}
use paymage.Poseidon.{hash, InField}
use paymage.NonMembership.Defs.{
  FindResult, at_empty, at_leaf, push_front, find_key_internal, split_bits,
}
use paymage.NonMembership.Insert.{common_from, zeros}
use paymage.NonMembership.Smt.{Smt, HasKey, EveryKey, IsPlaced, IsWithin, root_hash, IsStored}
use paymage.NonMembership.Search.{folded, visit-empty, visit-leaf, visit-node}
use paymage.NonMembership.Facts.{length-split_bits}
use paymage.NonMembership.Bits.{from, from-get, common_from-step, length-from, split_bits-injective}

-- Two leaves under the first level at which their keys' bits differ.
abbrev pub fork : List Bool → List Bool → Smt → Smt → Smt
fork [] os new old = new
fork (b ∷ bs) [] new old = new
fork (true ∷ bs) (true ∷ os) new old = Smt.node Smt.empty (fork bs os new old)
fork (true ∷ bs) (false ∷ os) new old = Smt.node old new
fork (false ∷ bs) (true ∷ os) new old = Smt.node new old
fork (false ∷ bs) (false ∷ os) new old = Smt.node (fork bs os new old) Smt.empty

-- The tree from a level on, with a new leaf where the key's bits from there on lead.
abbrev pub insert_at : ℕ → List Bool → U256 → U256 → Smt → Smt
insert_at level bits key value Smt.empty = Smt.leaf key value
insert_at level bits key value (Smt.leaf k v) =
    fork bits (from level (split_bits k)) (Smt.leaf key value) (Smt.leaf k v)
insert_at level [] key value (Smt.node l r) = Smt.node l r
insert_at level (true ∷ bs) key value (Smt.node l r) =
    Smt.node l (insert_at (suc level) bs key value r)
insert_at level (false ∷ bs) key value (Smt.node l r) =
    Smt.node (insert_at (suc level) bs key value l) r

-- The whole tree with a new leaf.
abbrev pub insert_tree : U256 → U256 → Smt → Smt
insert_tree key value t = insert_at 0 (split_bits key) key value t

EveryKey-zip :
    {P Q R : U256 → Type 0} (t : Smt)
    → ((k : U256) → P k → Q k → R k)
    → EveryKey P t
    → EveryKey Q t
    → EveryKey R t
EveryKey-zip Smt.empty f p q = tt
EveryKey-zip (Smt.leaf k v) f p q = f k p q
EveryKey-zip (Smt.node l r) f p q = (EveryKey-zip l f p.0 q.0, EveryKey-zip r f p.1 q.1)

-- No key of the tree has these bits from the level on.
abbrev pub IsApart : ℕ → List Bool → Smt → Type 0
IsApart level bits t = EveryKey (λ k. from level (split_bits k) ≢ bits) t

pub IsApart-below :
    (level : ℕ) (b : Bool) (bs : List Bool) (t : Smt)
    → EveryKey (λ k. get_elem? (split_bits k) level ≡ some b) t
    → IsApart level (b ∷ bs) t
    → IsApart (suc level) bs t
IsApart-below level b bs t placed apart =
    EveryKey-zip t (λ k bit ne e. ne (from-get level (split_bits k) b bit ∙ ap (b ∷◌) e)) placed
      apart

module _ (perm : U256 → U256 → U256) (perm₃ : U256 → U256 → U256 → U256) where
  -- What the search for a key ends with.
  abbrev pub answer_of : U256 → List Bool → Smt → FindResult
  answer_of key bits Smt.empty = at_empty key
  answer_of key bits (Smt.leaf k v) = at_leaf key k v
  answer_of key [] (Smt.node l r) = at_empty key
  answer_of key (true ∷ bs) (Smt.node l r) =
      let below = answer_of key bs r in
      record below { siblings = root_hash perm perm₃ l ∷ below.siblings }
  answer_of key (false ∷ bs) (Smt.node l r) =
      let below = answer_of key bs l in
      record below { siblings = root_hash perm perm₃ r ∷ below.siblings }

  pub find_key_internal-answer_of :
      (nodes : Map (List U256)) (key : U256) (t : Smt) (bits : List Bool)
      → IsStored perm perm₃ nodes t
      → IsWithin (length bits) t
      → find_key_internal nodes key bits (root_hash perm perm₃ t) ≡ some (answer_of key bits t)
  find_key_internal-answer_of nodes key Smt.empty bits s d = visit-empty perm perm₃ nodes key bits
  find_key_internal-answer_of nodes key (Smt.leaf k v) bits s d =
      visit-leaf perm perm₃ nodes key bits (perm₃ k v 1) k v s.0 s.1
  find_key_internal-answer_of nodes key (Smt.node l r) [] s d = elim d [ ]
  find_key_internal-answer_of nodes key (Smt.node l r) (true ∷ bs) s d =
      let hl = root_hash perm perm₃ l in
      let hr = root_hash perm perm₃ r in
      visit-node perm perm₃ nodes key true bs (hash perm hl hr) hl hr s.0 s.1
      ∙ ap (push_front hl) (find_key_internal-answer_of nodes key r bs s.3 d.1)
  find_key_internal-answer_of nodes key (Smt.node l r) (false ∷ bs) s d =
      let hl = root_hash perm perm₃ l in
      let hr = root_hash perm perm₃ r in
      visit-node perm perm₃ nodes key false bs (hash perm hl hr) hl hr s.0 s.1
      ∙ ap (push_front hr) (find_key_internal-answer_of nodes key l bs s.2 d.0)

  -- The siblings of the new leaf: those found and, beside another leaf, an empty one for each equal
  -- bit and then that leaf.
  abbrev pub all_siblings : ℕ → List Bool → FindResult → List U256
  all_siblings level bits r =
      if r.is_old0
      then r.siblings
      else r.siblings
        ++ zeros (common_from (from level (split_bits r.not_found_key)) bits (length r.siblings))
        ++ perm₃ r.not_found_key r.not_found_value 1 ∷ []

  pub all_siblings-step :
      (level : ℕ) (b : Bool) (bs : List Bool) (s : U256) (r : FindResult)
      → level < 256
      → all_siblings level (b ∷ bs) (record r { siblings = s ∷ r.siblings })
        ≡ s ∷ all_siblings (suc level) bs r
  all_siblings-step level b bs s r h = elim (Bool-cases r.is_old0) [
    | inl empty_end ↦ rw empty_end refl
    | inr at_other ↦
        let same =
          common_from-step level (split_bits r.not_found_key) b bs (length r.siblings)
            (omega (arith, length-split_bits r.not_found_key)) in
        rw (at_other, same) refl
  ]

  -- The hashes along equal bits and then beside the other leaf are those of the fork.
  folded-fork :
      (bs os : List Bool) (key value k v : U256)
      → length bs ≡ length os
      → os ≢ bs
      → folded perm perm₃ bs (zeros (common_from os bs 0) ++ perm₃ k v 1 ∷ []) (perm₃ key value 1)
        ≡ root_hash perm perm₃ (fork bs os (Smt.leaf key value) (Smt.leaf k v))
  unfolding common_from
  folded-fork [] [] key value k v e ne = absurd (ne refl)
  folded-fork [] (o ∷ os) key value k v e ne = absurd (omega arith)
  folded-fork (b ∷ bs) [] key value k v e ne = absurd (omega arith)
  folded-fork (true ∷ bs) (true ∷ os) key value k v e ne =
      ap (hash perm 0) (folded-fork bs os key value k v (omega arith) (λ q. ne (ap (true ∷◌) q)))
  folded-fork (true ∷ bs) (false ∷ os) key value k v e ne = refl
  folded-fork (false ∷ bs) (true ∷ os) key value k v e ne = refl
  folded-fork (false ∷ bs) (false ∷ os) key value k v e ne =
      ap (λ h. hash perm h 0)
        (folded-fork bs os key value k v (omega arith) (λ q. ne (ap (false ∷◌) q)))

  -- Where a key's search says that it is not there, the hashes along all siblings are those of the
  -- tree with the new leaf.
  pub folded-insert_at :
      (key value : U256) (t : Smt) (level : ℕ) (bits : List Bool)
      → level + length bits ≡ 256
      → IsPlaced level t
      → IsWithin (length bits) t
      → IsApart level bits t
      → (answer_of key bits t).found ≡ false
      → folded perm perm₃ bits (all_siblings level bits (answer_of key bits t)) (perm₃ key value 1)
        ≡ root_hash perm perm₃ (insert_at level bits key value t)
  folded-insert_at key value Smt.empty level bits e p d a f = refl
  folded-insert_at key value (Smt.leaf k v) level bits e p d a f = elim (Bool-cases (k == key)) [
    | inl same ↦ absurd (ground arith)
    | inr other ↦
        let size : length bits ≡ length (from level (split_bits k)) =
          omega (arith, length-from level (split_bits k), length-split_bits k) in
        rw other (folded-fork bits (from level (split_bits k)) key value k v size a)
  ]
  folded-insert_at key value (Smt.node l r) level [] e p d a f = elim d [ ]
  folded-insert_at key value (Smt.node l r) level (true ∷ bs) e p d a f =
      let hl = root_hash perm perm₃ l in
      let below = answer_of key bs r in
      ap (λ ss. folded perm perm₃ (true ∷ bs) ss (perm₃ key value 1))
        (all_siblings-step level true bs hl below (omega arith))
      ∙ ap (hash perm hl) (
          folded-insert_at key value r (suc level) bs (omega arith) p.3 d.1
            (IsApart-below level true bs r p.1 a.1) f)
  folded-insert_at key value (Smt.node l r) level (false ∷ bs) e p d a f =
      let hr = root_hash perm perm₃ r in
      let below = answer_of key bs l in
      ap (λ ss. folded perm perm₃ (false ∷ bs) ss (perm₃ key value 1))
        (all_siblings-step level false bs hr below (omega arith))
      ∙ ap (λ h. hash perm h hr)
          (folded-insert_at key value l (suc level) bs (omega arith) p.2 d.0
            (IsApart-below level false bs l p.0 a.0) f)

pub EveryKey-IsApart :
    (key : U256) (t : Smt)
    → key < 2 ^ 256
    → EveryKey InField t
    → ¬ HasKey key t
    → EveryKey (λ k. from 0 (split_bits k) ≢ split_bits key) t
EveryKey-IsApart key Smt.empty h f out = tt
EveryKey-IsApart key (Smt.leaf k v) h f out =
    λ e. out (split_bits-injective k key (omega arith) h e)
EveryKey-IsApart key (Smt.node l r) h f out = (
  EveryKey-IsApart key l h f.0 (λ x. out (inl x)),
  EveryKey-IsApart key r h f.1 (λ x. out (inr x)),
)
