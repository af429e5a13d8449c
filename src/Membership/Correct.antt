-- ===== src/Membership/Correct.antt =====
-- The membership tree holds the Merkle root of its leaves, and who may insert one.
use paymage.Base.{
  ℕ, suc, ◌+◌, ◌^◌, ◌≡◌, ◌<◌, ◌≤◌, Bool, true, false, Option, none, some, List, [], ◌∷◌, ◌++◌,
  length, length-append, All, empty, arith, ap, ◌∙◌, sym, refl, if◌then◌else◌,
}
use native.Mathlib.Nat.{pow-le-pow_right}
use paymage.Host.Outcome.{ok}
use paymage.Host.Interface.{Address, U256, Auth}
use paymage.Poseidon.{InField, Permutes, IsZeroTable}
use paymage.Merkle.Spec.{Level, update, halve, ascend, leaf_level, root_of}
use paymage.Merkle.Incremental.{Fits, insert_path-Absorbed}
use paymage.Merkle.Empty.{root_of-empty, init_levels-IsInit, Fits-empty}
use paymage.Merkle.Leaves.{
  halve-below, leaf_level-LevelInField, leaf_level-Blank, leaf_level-append_one,
}
use paymage.Membership.Defs.{Error, Event, World, or_true, constructor, insert_leaf}

abbrev pub blank : World
blank = record {
  admin = none;
  subtrees = record { filled = empty; zeroes = empty };
  levels = none;
  next_index = none;
  root = none;
  admin_insert_only = none;
  events = [];
}

-- Whether the administrator, if there is one, authorised.
abbrev pub by_admin : Auth → Option Address → Bool
by_admin auth none = false
by_admin auth (some a) = auth a

-- Whether a leaf may be inserted.
abbrev pub may_insert : Auth → World → Bool
may_insert auth w = if or_true w.admin_insert_only then by_admin auth w.admin else true

pow-le_32 : (k : ℕ) → k ≤ 32 → 2 ^ k ≤ 2 ^ 32
pow-le_32 k h = pow-le-pow_right (omega arith) {j = 32} (omega arith)

All-append_one :
    (leaves : List U256) (a : U256)
    → All InField leaves
    → InField a
    → All InField (leaves ++ a ∷ [])
All-append_one [] a h p = (p, tt)
All-append_one (x ∷ xs) a h p = (h.0, All-append_one xs a h.1 p)

module _ (perm : U256 → U256 → U256) (is_perm : Permutes perm) where
  -- The tree has `k` levels and holds these leaves.
  pub record IsMemberTree (leaves : List U256) (k : ℕ) (w : World) : Type 0 where
    pub levels_set : w.levels ≡ some k
    pub levels_high : k ≤ 32
    pub next_set : w.next_index ≡ some (length leaves)
    pub room : length leaves ≤ 2 ^ k
    pub field : All InField leaves
    pub fits : Fits perm is_perm k 0 (length leaves) (leaf_level perm leaves) w.subtrees
    pub root_set : w.root ≡ some (root_of perm k leaves)

  module _ (auth : Auth) (leaves : List U256) (k : ℕ) (w : World) (leaf : U256)
      (set : IsMemberTree leaves k w) where
    -- A leaf below the modulus, which the caller may insert, into a tree with room, is inserted behind
    -- the others: the root is the Merkle root of the leaves with it, and the event names it, its index
    -- and that root; who may insert stays as it was.
    pub insert_leaf-IsMemberTree :
        may_insert auth w ≡ true
        → InField leaf
        → length leaves < 2 ^ k
        → (w' : World) × (insert_leaf perm auth leaf w ≡ ok tt w')
          × IsMemberTree (leaves ++ leaf ∷ []) k w'
          × (w'.events
              ≡ Event.leaf_added leaf (length leaves) (root_of perm k (leaves ++ leaf ∷ []))
                ∷ w.events)
          × (w'.admin ≡ w.admin)
          × (w'.admin_insert_only ≡ w.admin_insert_only)
    unfolding insert_leaf root_of
    insert_leaf-IsMemberTree may leaf_in room =
        let n = length leaves in
        let f = leaf_level perm leaves in
        let (s', h) =
          insert_path-Absorbed Error.not_initialized perm is_perm k 0 n leaf f w.subtrees set.fits
            leaf_in (leaf_level-LevelInField perm is_perm leaves set.field)
            (leaf_level-Blank perm is_perm leaves n (omega arith)) in
        let root = ascend perm k (update f n leaf) (halve k n) in
        let below : 2 ^ k ≤ 2 ^ 32 = pow-le_32 k set.levels_high in
        let grown = leaf_level-append_one perm is_perm leaves leaf in
        let root_grown : root ≡ root_of perm k (leaves ++ leaf ∷ []) =
          ap (ascend perm k (update f n leaf)) (halve-below k n room)
          ∙ ap (λ (g : Level). ascend perm k g 0) (sym grown) in
        let more : length (leaves ++ leaf ∷ []) ≡ suc n =
          length-append leaves (leaf ∷ []) ∙ omega arith in
        (
          record w {
            subtrees = s';
            root = some root;
            events = Event.leaf_added leaf n root ∷ w.events;
            next_index = some (suc n);
          },
          ground (arith, set.levels_set, set.levels_high, set.next_set, h.runs),
          record {
            levels_set = set.levels_set;
            levels_high = set.levels_high;
            next_set = ap some (sym more);
            room = omega arith;
            field = All-append_one leaves leaf set.field leaf_in;
            fits = rw (more, grown) h.next;
            root_set = ap some root_grown;
          },
          ap (λ r. Event.leaf_added leaf n r ∷ w.events) root_grown,
          refl,
          refl,
        )

  -- With 1 to 32 levels the constructor makes the tree without leaves.
  pub constructor-IsMemberTree :
      IsZeroTable perm
      → (admin k : ℕ) → k ≤ 31
      → (w : World) × (constructor admin (suc k) blank ≡ ok tt w)
        × IsMemberTree [] (suc k) w
        × (w.admin_insert_only ≡ some true)
  unfolding constructor
  constructor-IsMemberTree table admin k high =
      let (s, e, i) =
        init_levels-IsInit perm is_perm Error.not_initialized table (suc k + 1) 0 blank.subtrees
          (omega arith) in
      (
        record {
          admin = some admin;
          subtrees = s;
          levels = some (suc k);
          next_index = some 0;
          root = some (root_of perm (suc k) []);
          admin_insert_only = some true;
          events = [];
        },
        ground (arith, e, table (suc k) (omega arith), root_of-empty perm is_perm (suc k)),
        record {
          levels_set = refl;
          levels_high = omega arith;
          next_set = refl;
          room = omega arith;
          field = tt;
          fits =
              Fits-empty perm is_perm (suc k) 0 (leaf_level perm []) s
                (λ j a b. i.zeroes_set j (omega arith) (omega arith));
          root_set = refl;
        },
        refl,
      )
