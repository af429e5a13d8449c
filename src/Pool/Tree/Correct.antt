-- ===== src/Pool/Tree/Correct.antt =====
-- The pool's tree holds the Merkle root of its leaves, and the roots before it.
use paymage.Base.{
  ℕ, suc, ◌+◌, ◌/◌, ◌%◌, ◌^◌, ◌≡◌, ◌<◌, ◌≤◌, some, List, [], ◌∷◌, ◌++◌, length, length-append, All,
  arith, ap, ◌∙◌, sym,
}
use native.Mathlib.Nat.{pow-le-pow_right, pow-suc}
use paymage.Host.Outcome.{ok, err}
use paymage.Host.Interface.{U256}
use paymage.Poseidon.{hash, InField, Permutes, hash_lt, poseidon2_compress-hash}
use paymage.Merkle.Spec.{Level, update, halve, up, ascend, leaf_level, root_of}
use paymage.Merkle.Incremental.{Fits, insert_path-Absorbed, up-LevelInField}
use paymage.Merkle.Leaves.{up-append_two, up-Blank_even, halve-below}
use paymage.Pool.Tree.Defs.{Tree, MerkleError, insert_two_leaves}
use paymage.Pool.Tree.History.{IsRing, pushed, push_root_lem, pushed-IsRing}

pow-le_32 : (k : ℕ) → k ≤ 31 → 2 ^ suc k ≤ 2 ^ 32
pow-le_32 k h = pow-le-pow_right (omega arith) {j = 32} (omega arith)

module _ (perm : U256 → U256 → U256) (is_perm : Permutes perm) where
  -- The tree has `k + 1` levels and holds these leaves; its ring of roots holds the Merkle root of
  -- the leaves, and behind it the older roots, the current slot being `cur`.
  pub record IsTree (leaves older : List U256) (k cur : ℕ) (t : Tree) : Type 0 where
    pub levels_set : t.levels ≡ some (suc k)
    pub levels_high : k ≤ 31
    pub next_set : t.next_index ≡ some (length leaves)
    pub room : length leaves ≤ 2 ^ suc k
    pub even : length leaves % 2 ≡ 0
    pub field : All InField leaves
    pub fits :
        Fits perm is_perm k 1 (length leaves / 2) (up perm (leaf_level perm leaves)) t.subtrees
    pub ring : IsRing (root_of perm (suc k) leaves ∷ older) cur t

  All-append_two :
      (leaves : List U256) (a b : U256)
      → All InField leaves
      → InField a
      → InField b
      → All InField (leaves ++ a ∷ b ∷ [])
  All-append_two [] a b h p q = (p, (q, tt))
  All-append_two (x ∷ xs) a b h p q = (h.0, All-append_two xs a b h.1 p q)

  module _ (leaves older : List U256) (k cur : ℕ) (t : Tree) (a b : U256)
      (tree : IsTree leaves older k cur t) (a_in : InField a) (b_in : InField b) where
    -- Into a tree with room for them, two leaves below the modulus are inserted at the next two indices,
    -- which are returned; the new current root is the Merkle root of the leaves with these two, in the next
    -- slot of the ring, and the old one stands behind it.
    pub insert_two_leaves-IsTree :
        length leaves + 2 ≤ 2 ^ suc k
        → (t' : Tree) × (insert_two_leaves perm a b t ≡ ok (length leaves, length leaves + 1) t')
          × IsTree
              (leaves ++ a ∷ b ∷ [])
              (root_of perm (suc k) leaves ∷ older)
              k
              ((cur + 1) % 90)
              t'
    unfolding insert_two_leaves root_of ascend
    insert_two_leaves-IsTree room =
        let n = length leaves in
        let f = up perm (leaf_level perm leaves) in
        let (s', h) =
          insert_path-Absorbed MerkleError.not_initialized perm is_perm k 1 (n / 2) (hash perm a b)
            f t.subtrees tree.fits (hash_lt perm a b)
            (up-LevelInField perm is_perm (leaf_level perm leaves))
            (up-Blank_even perm is_perm leaves tree.even) in
        let t₁ : Tree = record t { subtrees = s' } in
        let root = ascend perm k (update f (n / 2) (hash perm a b)) (halve k (n / 2)) in
        let below : 2 ^ suc k ≤ 2 ^ 32 = pow-le_32 k tree.levels_high in
        let grown = up-append_two perm is_perm leaves a b tree.even in
        let root_grown : root ≡ root_of perm (suc k) (leaves ++ a ∷ b ∷ []) =
          ap (ascend perm k (update f (n / 2) (hash perm a b)))
            (halve-below k (n / 2) (omega (arith, pow-suc 2 k)))
          ∙ ap (λ (g : Level). ascend perm k g 0) (sym grown) in
        let more : length (leaves ++ a ∷ b ∷ []) ≡ n + 2 = length-append leaves (a ∷ b ∷ []) in
        let half : length (leaves ++ a ∷ b ∷ []) / 2 ≡ suc (n / 2) = omega arith in
        (
          pushed cur n root t₁,
          ground (
            arith,
            tree.levels_set,
            tree.next_set,
            tree.ring.current,
            tree.even,
            poseidon2_compress-hash perm a b is_perm a_in b_in,
            h.runs,
            push_root_lem cur n root t₁ tree.ring.in_ring (omega arith),
          ),
          record {
            levels_set = tree.levels_set;
            levels_high = tree.levels_high;
            next_set = ap some (sym more);
            room = omega arith;
            even = omega (arith, tree.even);
            field = All-append_two leaves a b tree.field a_in b_in;
            fits = rw (half, grown) h.next;
            ring = rw (← root_grown) (
                pushed-IsRing (root_of perm (suc k) leaves ∷ older) cur n root t₁ (record {
                  current = tree.ring.current;
                  in_ring = tree.ring.in_ring;
                  slots = tree.ring.slots;
                }));
          },
        )

    -- A tree without room for two leaves refuses them.
    pub insert_two_leaves-full :
        2 ^ suc k < length leaves + 2
        → insert_two_leaves perm a b t ≡ err MerkleError.merkle_tree_full
    unfolding insert_two_leaves
    insert_two_leaves-full full = ground (
      arith,
      tree.levels_set,
      tree.levels_high,
      tree.next_set,
      tree.room,
      tree.ring.current,
      tree.even,
      pow-le_32 k tree.levels_high,
    )
