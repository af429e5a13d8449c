-- ===== src/Pool/Tree/History.antt =====
-- The ring buffer of roots holds the last 90 roots, newest first, and `is_known_root` searches just
-- these.
use paymage.Base.{
  ℕ, zero, suc, ◌+◌, ◌-◌, ◌%◌, ◌^◌, ◌≡◌, ◌<◌, ◌≤◌, ◌==◌, refl, not, ◌&&◌, ◌||◌, Bool, true, Option,
  none, some, List, ◌∷◌, get_elem?, get_elem?-cons, elem, Elem, elem→Elem, Elem→elem, take,
  Elem-take, take-index, insert, arith, Bool-cases, inl, inr, ap, ◌∙◌,
}
use paymage.Host.Outcome.{ok}
use paymage.Host.Interface.{U256}
use paymage.Pool.Tree.Defs.{
  Tree, root_history_size, holds, next_slot, search_roots, is_known_root, get_last_root, push_root,
}

-- With the current slot `cur`, slot `i` holds the root that was pushed as many pushes ago as `i`
-- lies behind `cur`; a slot not yet written is empty.
pub record IsRing (history : List U256) (cur : ℕ) (t : Tree) : Type 0 where
  pub current : t.current_root_index ≡ some cur
  pub in_ring : cur < 90
  pub slots : (i : ℕ) → i < 90 → t.root i ≡ get_elem? history ((cur + 90 - i) % 90)

-- The search from the slot that lies `suc m` behind the current one sees these roots.
abbrev visit : List U256 → U256 → ℕ → Bool
visit history r zero = holds r (get_elem? history (1 % 90))
visit history r (suc m) = holds r (get_elem? history ((suc m + 1) % 90)) || visit history r m

module _ (history : List U256) (r cur : ℕ) (t : Tree) (ring : IsRing history cur t) where
  search_step :
      (m i : ℕ)
      → m < 90
      → i ≡ (cur + 90 - (m + 1)) % 90
      → (t.root i ≡ get_elem? history ((m + 1) % 90))
        × (next_slot i t ≡ ok ((i + 1) % 90) t)
        × (((i + 1) % 90 == cur) ≡ (m == 0))
        × ((i + 1) % 90 ≡ (cur + 90 - m) % 90)
  search_step m i h e = (
    rw (ring.slots i (omega arith)) (ap (get_elem? history) (omega (arith, ring.in_ring))),
    ground (arith, ring.in_ring),
    ground (arith, ring.in_ring),
    omega (arith, ring.in_ring),
  )

  search_roots-visit :
      (m i : ℕ)
      → m < 90
      → i ≡ (cur + 90 - (m + 1)) % 90
      → search_roots (suc m) cur r i t ≡ ok (visit history r m) t
  unfolding search_roots
  search_roots-visit zero i h e = ground (arith, search_step zero i h e)
  search_roots-visit (suc m) i h e = ground (
    arith,
    search_step (suc m) i h e,
    search_roots-visit m ((i + 1) % 90) (omega arith) (omega (arith, ring.in_ring)),
  )

holds-some : (r : ℕ) (o : Option ℕ) → holds r o ≡ true → o ≡ some r
holds-some r none h = cc
holds-some r (some x) h = ground arith

visit-Elem :
    (history : List U256) (r m : ℕ) → m < 90 → visit history r m ≡ true → Elem r (take 90 history)
visit-Elem history r zero h v =
    Elem-take 90 1 r history (omega arith) (holds-some r (get_elem? history 1) v)
visit-Elem history r (suc m) h v = elim (Bool-cases (visit history r m)) [
  | inl later ↦ visit-Elem history r m (omega arith) later
  | inr not_later ↦
      Elem-take 90 ((suc m + 1) % 90) r history (omega arith)
        (holds-some r (get_elem? history ((suc m + 1) % 90)) (ground arith))
]

visit-hit :
    (history : List U256) (r m n : ℕ)
    → n ≤ m
    → get_elem? history ((n + 1) % 90) ≡ some r
    → visit history r m ≡ true
visit-hit history r zero n h e = ground arith
visit-hit history r (suc m) n h e = elim (Bool-cases (n == suc m)) [
  | inl now ↦
      let here : get_elem? history ((suc m + 1) % 90) ≡ some r = ground arith in ground arith
  | inr later ↦ ground (arith, visit-hit history r m n (ground arith) e)
]

-- What the full search sees is the last 90 roots.
visit-elem : (history : List U256) (r : U256) → visit history r 89 ≡ elem r (take 90 history)
visit-elem history r = elim (Bool-cases (elem r (take 90 history))) [
  | inl known ↦
      let (i, lt, e) = take-index 90 r history (elem→Elem r (take 90 history) known) in
      rw known (elim (Bool-cases (i == 0)) [
        | inl first ↦ visit-hit history r 89 89 (omega arith) (
            let z : i ≡ 0 = ground arith in let e' : get_elem? history 0 ≡ some r = rw z at e in e')
        | inr other ↦
            visit-hit history r 89 (i - 1) (omega arith) (ap (get_elem? history) (ground arith) ∙ e)
      ])
  | inr unknown ↦ elim (Bool-cases (visit history r 89)) [
    | inl seen ↦
        let e = Elem→elem r (take 90 history) (visit-Elem history r 89 (omega arith) seen) in cc
    | inr unseen ↦ rw (unseen, unknown)
  ]
]

-- On a ring that holds a history of roots, a root is known exactly when it is not zero and is one
-- of the last 90; asking changes nothing.
pub is_known_root_lem :
    (history : List U256) (cur : ℕ) (t : Tree) (r : U256)
    → IsRing history cur t
    → is_known_root r t ≡ ok (not (r == 0) && elem r (take root_history_size history)) t
unfolding is_known_root
is_known_root_lem history cur t r ring = ground (
  arith,
  ring.current,
  search_roots-visit history r cur t ring 89 cur (omega arith) (omega (arith, ring.in_ring)),
  visit-elem history r,
)

-- The last root is the one pushed last.
pub get_last_root_lem :
    (history : List U256) (root : U256) (cur : ℕ) (t : Tree)
    → IsRing (root ∷ history) cur t
    → get_last_root t ≡ ok root t
unfolding get_last_root
get_last_root_lem history root cur t ring =
    let age : (cur + 90 - cur) % 90 ≡ 0 = omega (arith, ring.in_ring) in
    let here : t.root cur ≡ some root =
      ring.slots cur ring.in_ring ∙ ap (get_elem? (root ∷ history)) age in
    ground (arith, ring.current)

abbrev pub pushed : ℕ → ℕ → U256 → Tree → Tree
pushed cur n hash t = record t {
  root = insert ((cur + 1) % 90) hash t.root;
  current_root_index = some ((cur + 1) % 90);
  next_index = some (n + 2);
}

pub push_root_lem :
    (cur n : ℕ) (hash : U256) (t : Tree)
    → cur < 90
    → n + 2 ≤ 2 ^ 32
    → push_root cur n hash t ≡ ok (n, n + 1) (pushed cur n hash t)
unfolding push_root
push_root_lem cur n hash t c h = ground arith

pub pushed-IsRing :
    (history : List U256) (cur n : ℕ) (hash : U256) (t : Tree)
    → IsRing history cur t
    → IsRing (hash ∷ history) ((cur + 1) % 90) (pushed cur n hash t)
pushed-IsRing history cur n hash t ring = record {
  current = refl;
  in_ring = omega arith;
  slots = λ i lt. elim (Bool-cases ((cur + 1) % 90 == i)) [
    | inl now ↦ let age : ((cur + 1) % 90 + 90 - i) % 90 ≡ 0 = ground arith in ground arith
    | inr before ↦
        let age : ((cur + 1) % 90 + 90 - i) % 90 ≡ (cur + 90 - i) % 90 + 1 =
          ground (arith, ring.in_ring) in
        ground
          (arith, ring.slots i lt, get_elem?-cons hash history (((cur + 1) % 90 + 90 - i) % 90))
  ];
}
