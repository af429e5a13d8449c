-- ===== src/NonMembership/Facts.antt =====
-- The length of a key's bits, what holds of every key and value, and equal lists of siblings.
use paymage.Base.{ℕ, zero, suc, ◌==◌, ◌≡◌, true, List, [], ◌∷◌, length, arith, refl, ap, inl, inr}
use paymage.Host.Interface.{U256}
use paymage.NonMembership.Defs.{split_from, split_bits, same_siblings}
use paymage.NonMembership.Smt.{Smt, Contains, EveryKey, EveryValue}

length-split_from : (n k : ℕ) → length (split_from n k) ≡ n
unfolding split_from
length-split_from zero k = refl
length-split_from (suc n) k = ap suc (length-split_from n _)

pub length-split_bits : (k : ℕ) → length (split_bits k) ≡ 256
unfolding split_bits
length-split_bits k = length-split_from 256 k

pub Contains-EveryKey :
    (P : U256 → Type 0) (t : Smt) (k v : U256) → EveryKey P t → Contains k v t → P k
Contains-EveryKey P Smt.empty k v h c = elim c [ ]
Contains-EveryKey P (Smt.leaf a b) k v h c = rw (← c.0) h
Contains-EveryKey P (Smt.node l r) k v h (inl c) = Contains-EveryKey P l k v h.0 c
Contains-EveryKey P (Smt.node l r) k v h (inr c) = Contains-EveryKey P r k v h.1 c

pub Contains-EveryValue :
    (P : U256 → Type 0) (t : Smt) (k v : U256) → EveryValue P t → Contains k v t → P v
Contains-EveryValue P Smt.empty k v h c = elim c [ ]
Contains-EveryValue P (Smt.leaf a b) k v h c = rw (← c.1) h
Contains-EveryValue P (Smt.node l r) k v h (inl c) = Contains-EveryValue P l k v h.0 c
Contains-EveryValue P (Smt.node l r) k v h (inr c) = Contains-EveryValue P r k v h.1 c

pub same_siblings_refl : (xs : List U256) → same_siblings xs xs ≡ true
same_siblings_refl [] = refl
same_siblings_refl (x ∷ xs) = let e : (x == x) ≡ true = ground arith in rw e (same_siblings_refl xs)
