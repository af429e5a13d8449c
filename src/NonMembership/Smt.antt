-- ===== src/NonMembership/Smt.antt =====
-- Sparse trees as data, apart from their storage: a leaf stands as high as it is alone, and the bits
-- of its key lead to it.
use paymage.Base.{ℕ, zero, suc, ◌≡◌, ◌≢◌, true, false, some, List, [], ◌∷◌, get_elem?, Map, ◌⊎◌}
use paymage.Host.Interface.{U256}
use paymage.Poseidon.{hash, InField}
use paymage.NonMembership.Defs.{World, split_bits}

pub data Smt : Type 0 where
  empty : Smt
  leaf : (key value : U256) → Smt
  node : (left right : Smt) → Smt

abbrev pub HasKey : U256 → Smt → Type 0
HasKey key Smt.empty = ⊥
HasKey key (Smt.leaf k v) = k ≡ key
HasKey key (Smt.node l r) = HasKey key l ⊎ HasKey key r

abbrev pub Contains : U256 → U256 → Smt → Type 0
Contains key value Smt.empty = ⊥
Contains key value (Smt.leaf k v) = (k ≡ key) × (v ≡ value)
Contains key value (Smt.node l r) = Contains key value l ⊎ Contains key value r

abbrev pub EveryKey : (U256 → Type 0) → Smt → Type 0
EveryKey P Smt.empty = Unit
EveryKey P (Smt.leaf k v) = P k
EveryKey P (Smt.node l r) = EveryKey P l × EveryKey P r

-- From a level on, the keys stand where their bits lead.
abbrev pub IsPlaced : ℕ → Smt → Type 0
IsPlaced level Smt.empty = Unit
IsPlaced level (Smt.leaf k v) = Unit
IsPlaced level (Smt.node l r) =
    EveryKey (λ k. get_elem? (split_bits k) level ≡ some false) l
    × EveryKey (λ k. get_elem? (split_bits k) level ≡ some true) r
    × IsPlaced (suc level) l
    × IsPlaced (suc level) r

-- There are at most so many levels of inner nodes.
abbrev pub IsWithin : ℕ → Smt → Type 0
IsWithin height Smt.empty = Unit
IsWithin height (Smt.leaf k v) = Unit
IsWithin zero (Smt.node l r) = ⊥
IsWithin (suc height) (Smt.node l r) = IsWithin height l × IsWithin height r

abbrev pub EveryValue : (U256 → Type 0) → Smt → Type 0
EveryValue P Smt.empty = Unit
EveryValue P (Smt.leaf k v) = P v
EveryValue P (Smt.node l r) = EveryValue P l × EveryValue P r

module _ (perm : U256 → U256 → U256) (perm₃ : U256 → U256 → U256 → U256) where
  abbrev pub root_hash : Smt → U256
  root_hash Smt.empty = 0
  root_hash (Smt.leaf k v) = perm₃ k v 1
  root_hash (Smt.node l r) = hash perm (root_hash l) (root_hash r)

  -- The storage holds the nodes of the tree, each under its hash, and none of these is zero.
  abbrev pub IsStored : Map (List U256) → Smt → Type 0
  IsStored nodes Smt.empty = Unit
  IsStored nodes (Smt.leaf k v) =
      (nodes (root_hash (Smt.leaf k v)) ≡ some (1 ∷ k ∷ v ∷ [])) × (root_hash (Smt.leaf k v) ≢ 0)
  IsStored nodes (Smt.node l r) =
      (nodes (root_hash (Smt.node l r)) ≡ some (root_hash l ∷ root_hash r ∷ []))
      × (root_hash (Smt.node l r) ≢ 0)
      × IsStored nodes l
      × IsStored nodes r

  -- The contract's world holds the tree.
  pub record IsSmt (w : World) (t : Smt) : Type 0 where
    pub root : w.root ≡ some (root_hash t)
    pub stored : IsStored w.nodes t
    pub placed : IsPlaced 0 t
    pub within : IsWithin 256 t
    pub keys : EveryKey InField t
    pub values : EveryValue InField t
