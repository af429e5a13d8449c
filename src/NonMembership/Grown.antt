-- ===== src/NonMembership/Grown.antt =====
-- A sparse tree with a new leaf is a sparse tree, of the leaves that it had and the new one.
use paymage.Base.{
  ℕ, suc, ◌+◌, ◌≡◌, ◌≢◌, Bool, true, false, some, List, [], ◌∷◌, length, get_elem?, arith, refl, ap,
  ◌↔◌, ◌⊎◌, inl, inr,
}
use paymage.Host.Interface.{U256}
use paymage.NonMembership.Defs.{split_bits}
use paymage.NonMembership.Smt.{Smt, Contains, EveryKey, IsPlaced, IsWithin}
use paymage.NonMembership.Facts.{length-split_bits}
use paymage.NonMembership.Bits.{from, from-tail, get-from, length-from}
use paymage.NonMembership.Grow.{fork, insert_at, IsApart, IsApart-below}

fork-Every :
    (P : U256 → Type 0) (bs os : List Bool) (key value k v : U256)
    → P key
    → P k
    → EveryKey P (fork bs os (Smt.leaf key value) (Smt.leaf k v))
fork-Every P [] os key value k v p q = p
fork-Every P (b ∷ bs) [] key value k v p q = p
fork-Every P (true ∷ bs) (true ∷ os) key value k v p q = (tt, fork-Every P bs os key value k v p q)
fork-Every P (true ∷ bs) (false ∷ os) key value k v p q = (q, p)
fork-Every P (false ∷ bs) (true ∷ os) key value k v p q = (p, q)
fork-Every P (false ∷ bs) (false ∷ os) key value k v p q =
    (fork-Every P bs os key value k v p q, tt)

fork-IsPlaced :
    (level : ℕ) (bs os : List Bool) (key value k v : U256)
    → from level (split_bits key) ≡ bs
    → from level (split_bits k) ≡ os
    → IsPlaced level (fork bs os (Smt.leaf key value) (Smt.leaf k v))
fork-IsPlaced level [] os key value k v e f = tt
fork-IsPlaced level (b ∷ bs) [] key value k v e f = tt
fork-IsPlaced level (true ∷ bs) (true ∷ os) key value k v e f = (
  tt,
  fork-Every (λ x. get_elem? (split_bits x) level ≡ some true) bs os key value k v
      (get-from level (split_bits key) true bs e) (get-from level (split_bits k) true os f),
  tt,
  fork-IsPlaced (suc level) bs os key value k v (from-tail level (split_bits key) true bs e)
      (from-tail level (split_bits k) true os f),
)
fork-IsPlaced level (true ∷ bs) (false ∷ os) key value k v e f =
    (get-from level (split_bits k) false os f, get-from level (split_bits key) true bs e, tt, tt)
fork-IsPlaced level (false ∷ bs) (true ∷ os) key value k v e f =
    (get-from level (split_bits key) false bs e, get-from level (split_bits k) true os f, tt, tt)
fork-IsPlaced level (false ∷ bs) (false ∷ os) key value k v e f = (
  fork-Every (λ x. get_elem? (split_bits x) level ≡ some false) bs os key value k v
      (get-from level (split_bits key) false bs e) (get-from level (split_bits k) false os f),
  tt,
  fork-IsPlaced (suc level) bs os key value k v (from-tail level (split_bits key) false bs e)
      (from-tail level (split_bits k) false os f),
  tt,
)

fork-IsWithin :
    (bs os : List Bool) (key value k v : U256)
    → IsWithin (length bs) (fork bs os (Smt.leaf key value) (Smt.leaf k v))
fork-IsWithin [] os key value k v = tt
fork-IsWithin (b ∷ bs) [] key value k v = tt
fork-IsWithin (true ∷ bs) (true ∷ os) key value k v = (tt, fork-IsWithin bs os key value k v)
fork-IsWithin (true ∷ bs) (false ∷ os) key value k v =
    (within (length bs) k v, within (length bs) key value)
  where
    within : (n : ℕ) (k v : U256) → IsWithin n (Smt.leaf k v)
    within n k v = tt
fork-IsWithin (false ∷ bs) (true ∷ os) key value k v = (tt, tt)
fork-IsWithin (false ∷ bs) (false ∷ os) key value k v = (fork-IsWithin bs os key value k v, tt)

fork-Contains :
    (bs os : List Bool) (key value k v x y : U256)
    → length bs ≡ length os
    → os ≢ bs
    → Contains x y (fork bs os (Smt.leaf key value) (Smt.leaf k v))
      ↔ (((key ≡ x) × (value ≡ y)) ⊎ ((k ≡ x) × (v ≡ y)))
fork-Contains [] [] key value k v x y e ne = absurd (ne refl)
fork-Contains [] (o ∷ os) key value k v x y e ne = absurd (omega arith)
fork-Contains (b ∷ bs) [] key value k v x y e ne = absurd (omega arith)
fork-Contains (true ∷ bs) (true ∷ os) key value k v x y e ne =
    let (there, back) =
      fork-Contains bs os key value k v x y (omega arith) (λ q. ne (ap (true ∷◌) q)) in
    ((λ c. elim c [ inl n ↦ absurd n | inr c ↦ there c ]), λ c. inr (back c))
fork-Contains (true ∷ bs) (false ∷ os) key value k v x y e ne =
    ((λ c. elim c [ inl c ↦ inr c | inr c ↦ inl c ]), λ c. elim c [ inl c ↦ inr c | inr c ↦ inl c ])
fork-Contains (false ∷ bs) (true ∷ os) key value k v x y e ne = ((λ c. c), λ c. c)
fork-Contains (false ∷ bs) (false ∷ os) key value k v x y e ne =
    let (there, back) =
      fork-Contains bs os key value k v x y (omega arith) (λ q. ne (ap (false ∷◌) q)) in
    ((λ c. elim c [ inl c ↦ there c | inr n ↦ absurd n ]), λ c. inl (back c))

insert_at-Every :
    (P : U256 → Type 0) (level : ℕ) (bits : List Bool) (key value : U256) (t : Smt)
    → P key
    → EveryKey P t
    → EveryKey P (insert_at level bits key value t)
insert_at-Every P level bits key value Smt.empty p a = p
insert_at-Every P level bits key value (Smt.leaf k v) p a =
    fork-Every P bits (from level (split_bits k)) key value k v p a
insert_at-Every P level [] key value (Smt.node l r) p a = a
insert_at-Every P level (true ∷ bs) key value (Smt.node l r) p a =
    (a.0, insert_at-Every P (suc level) bs key value r p a.1)
insert_at-Every P level (false ∷ bs) key value (Smt.node l r) p a =
    (insert_at-Every P (suc level) bs key value l p a.0, a.1)

pub insert_at-IsPlaced :
    (level : ℕ) (bits : List Bool) (key value : U256) (t : Smt)
    → from level (split_bits key) ≡ bits
    → IsPlaced level t
    → IsPlaced level (insert_at level bits key value t)
insert_at-IsPlaced level bits key value Smt.empty e p = tt
insert_at-IsPlaced level bits key value (Smt.leaf k v) e p =
    fork-IsPlaced level bits (from level (split_bits k)) key value k v e refl
insert_at-IsPlaced level [] key value (Smt.node l r) e p = p
insert_at-IsPlaced level (true ∷ bs) key value (Smt.node l r) e p = (
  p.0,
  insert_at-Every (λ x. get_elem? (split_bits x) level ≡ some true) (suc level) bs key value r
      (get-from level (split_bits key) true bs e) p.1,
  p.2,
  insert_at-IsPlaced (suc level) bs key value r (from-tail level (split_bits key) true bs e) p.3,
)
insert_at-IsPlaced level (false ∷ bs) key value (Smt.node l r) e p = (
  insert_at-Every (λ x. get_elem? (split_bits x) level ≡ some false) (suc level) bs key value l
      (get-from level (split_bits key) false bs e) p.0,
  p.1,
  insert_at-IsPlaced (suc level) bs key value l (from-tail level (split_bits key) false bs e) p.2,
  p.3,
)

pub insert_at-IsWithin :
    (level : ℕ) (bits : List Bool) (key value : U256) (t : Smt)
    → IsWithin (length bits) t
    → IsWithin (length bits) (insert_at level bits key value t)
insert_at-IsWithin level bits key value Smt.empty d = tt
insert_at-IsWithin level bits key value (Smt.leaf k v) d =
    fork-IsWithin bits (from level (split_bits k)) key value k v
insert_at-IsWithin level [] key value (Smt.node l r) d = d
insert_at-IsWithin level (true ∷ bs) key value (Smt.node l r) d =
    (d.0, insert_at-IsWithin (suc level) bs key value r d.1)
insert_at-IsWithin level (false ∷ bs) key value (Smt.node l r) d =
    (insert_at-IsWithin (suc level) bs key value l d.0, d.1)

pub insert_at-Contains :
    (level : ℕ) (bits : List Bool) (key value x y : U256) (t : Smt)
    → level + length bits ≡ 256
    → IsPlaced level t
    → IsWithin (length bits) t
    → IsApart level bits t
    → Contains x y (insert_at level bits key value t) ↔ (((key ≡ x) × (value ≡ y)) ⊎ Contains x y t)
insert_at-Contains level bits key value x y Smt.empty e p d a =
    ((λ c. inl c), λ c. elim c [ inl c ↦ c | inr n ↦ absurd n ])
insert_at-Contains level bits key value x y (Smt.leaf k v) e p d a =
    fork-Contains bits (from level (split_bits k)) key value k v x y
      (omega (arith, length-from level (split_bits k), length-split_bits k)) a
insert_at-Contains level [] key value x y (Smt.node l r) e p d a = elim d [ ]
insert_at-Contains level (true ∷ bs) key value x y (Smt.node l r) e p d a =
    let (there, back) =
      insert_at-Contains (suc level) bs key value x y r (omega arith) p.3 d.1
        (IsApart-below level true bs r p.1 a.1) in
    (
      (λ c. elim c [
        | inl c ↦ inr (inl c)
        | inr c ↦ elim (there c) [ inl q ↦ inl q | inr q ↦ inr (inr q) ]
      ]),
      λ c. elim c [
        | inl q ↦ inr (back (inl q))
        | inr q ↦ elim q [ inl c ↦ inl c | inr c ↦ inr (back (inr c)) ]
      ],
    )
insert_at-Contains level (false ∷ bs) key value x y (Smt.node l r) e p d a =
    let (there, back) =
      insert_at-Contains (suc level) bs key value x y l (omega arith) p.2 d.0
        (IsApart-below level false bs l p.0 a.0) in
    (
      (λ c. elim c [
        | inl c ↦ elim (there c) [ inl q ↦ inl q | inr q ↦ inr (inl q) ]
        | inr c ↦ inr (inr c)
      ]),
      λ c. elim c [
        | inl q ↦ inl (back (inl q))
        | inr q ↦ elim q [ inl c ↦ inl (back (inr c)) | inr c ↦ inr c ]
      ],
    )
