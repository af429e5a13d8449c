-- ===== src/Prover/Merkle/Defs.antt =====
-- `MerklePrefixTree` and `MerklePrefixTreeBuilt`. Scalars and fields of one value are the same
-- number; an error carries a text, which nothing reads.
use paymage.Base.{
  ℕ, zero, suc, ◌+◌, ◌-◌, ◌*◌, ◌/◌, ◌%◌, ◌^◌, ◌==◌, ◌||◌, ltb, leb, List, [], ◌∷◌, length,
  get_elem?, get_or, if◌then◌else◌,
}
use paymage.Host.Outcome.{Action, ⊤, or_trap, fail_if, pure, ◌>>=◌, ◌>>◌}
use paymage.Host.Interface.{U256}
use paymage.Poseidon.{hash}

-- A computation that may return an error or panic.
abbrev pub Try : Type 0 → Type 0
Try A = Action ⊤ ⊤ A

-- `ZERO_LEAF_BYTES`
abbrev pub zero_leaf : U256
zero_leaf = 0x25302288db99350344974183ce310d63b53abb9ef0f8575753eed36e0118f9ce

pub record MerklePrefixTree : Type 0 where
  pub depth : ℕ
  pub leaves : List U256
  pub empty : List U256

pub record MerklePrefixTreeBuilt : Type 0 where
  pub depth : ℕ
  pub empty : List U256
  pub levels : List (List U256)

pub record MerkleProof : Type 0 where
  pub path_elements : List U256
  pub path_indices : U256
  pub root : U256
  pub levels : ℕ

-- `if nodes.is_empty() { nodes.push(empty) }`
abbrev pub pad : U256 → List U256 → List U256
pad empty [] = empty ∷ []
pad empty (x ∷ xs) = x ∷ xs

-- `v.first().copied().unwrap_or(d)`
abbrev pub first_or : List U256 → U256 → U256
first_or [] d = d
first_or (x ∷ xs) d = x

-- `bits |= 1 << level`
abbrev pub set_bit : ℕ → ℕ → ℕ
set_bit level bits = if (bits / 2 ^ level) % 2 == 1 then bits else bits + 2 ^ level

-- `index ^ 1`
abbrev pub sibling_of : ℕ → ℕ
sibling_of index = if index % 2 == 0 then index + 1 else index - 1

module _ (perm : U256 → U256 → U256) where
  -- `hash_pair`, over `poseidon2_compression`: the sum of the permutation's output and the left
  -- input, in the field.
  abbrev pub hash_pair : U256 → U256 → U256
  hash_pair left right = hash perm left right

  -- The rest of the chain of empty subtrees, for so many levels more.
  unfoldable pub empty_chain : ℕ → U256 → List U256
  empty_chain zero top = top ∷ []
  empty_chain (suc k) top = top ∷ empty_chain k (hash_pair top top)

  unfoldable pub new : ℕ → List U256 → Try MerklePrefixTree
  new depth leaves = do
    fail_if (depth == 0 || ltb 32 depth) tt
    pure (record { depth = depth; leaves = leaves; empty = empty_chain depth zero_leaf })

  -- for i in i..(i + n)
  unfoldable pub next_nodes : U256 → List U256 → ℕ → ℕ → List U256
  next_nodes empty nodes zero i = []
  next_nodes empty nodes (suc n) i =
      hash_pair (get_or nodes (2 * i) empty) (get_or nodes (2 * i + 1) empty)
      ∷ next_nodes empty nodes n (suc i)

  -- The level above; `div_ceil(2)` of its length.
  unfoldable pub next_level : U256 → List U256 → List U256
  next_level empty nodes = next_nodes empty nodes ((length nodes + 1) / 2) 0

  -- for level in level..(level + k)
  unfoldable pub root_loop : List U256 → ℕ → ℕ → List U256 → Try U256
  root_loop empty zero level nodes = do
    top ← or_trap (get_elem? empty level)
    pure (first_or nodes top)
  root_loop empty (suc k) level nodes = do
    e ← or_trap (get_elem? empty level)
    root_loop empty k (suc level) (next_level e (pad e nodes))

  unfoldable pub root : MerklePrefixTree → Try U256
  root t = root_loop t.empty t.depth 0 t.leaves

  unfoldable pub build_loop : List U256 → ℕ → ℕ → List U256 → Try (List (List U256))
  build_loop empty zero level nodes = pure (nodes ∷ [])
  build_loop empty (suc k) level nodes = do
    e ← or_trap (get_elem? empty level)
    rest ← build_loop empty k (suc level) (next_level e (pad e nodes))
    pure (pad e nodes ∷ rest)

  -- `build` and `into_built`, by `build_from_parts`.
  unfoldable pub build : MerklePrefixTree → Try MerklePrefixTreeBuilt
  build t = do
    levels ← build_loop t.empty t.depth 0 t.leaves
    pure (record { depth = t.depth; empty = t.empty; levels = levels })

abbrev pub leaf_count : MerklePrefixTreeBuilt → ℕ
leaf_count b = length (get_or b.levels 0 [])

unfoldable pub built_root : MerklePrefixTreeBuilt → Try U256
built_root b = do
  top ← or_trap (get_elem? b.empty b.depth)
  pure (first_or (get_or b.levels b.depth []) top)

-- for level in level..(level + k): the sibling of each level, and the bits of the index.
unfoldable pub path_loop : MerklePrefixTreeBuilt → ℕ → ℕ → ℕ → ℕ → Try (List U256 × ℕ)
path_loop b zero level current_index bits = pure ([], bits)
path_loop b (suc k) level current_index bits = do
  nodes ← or_trap (get_elem? b.levels level)
  e ← or_trap (get_elem? b.empty level)
  rest ←
      path_loop b k (suc level) (current_index / 2)
        (if current_index % 2 == 0 then bits else set_bit level bits)
  pure (get_or nodes (sibling_of current_index) e ∷ rest.0, rest.1)

unfoldable pub proof : MerklePrefixTreeBuilt → ℕ → Try MerkleProof
proof b index = do
  fail_if (leb (leaf_count b) index) tt
  path ← path_loop b b.depth 0 index 0
  root ← built_root b
  pure (record { path_elements = path.0; path_indices = path.1; root = root; levels = b.depth })
