-- ===== src/Base/Rearrange.antt =====
-- Rearrangements of a list, as a family that proofs take apart, and what they keep.
use Prim.Native.Nat.{ℕ, suc}
use mathlib.Core.Path.{◌≡◌, refl, ap, ◌∙◌}
use mathlib.Core.Logic.{inl, inr}
use mathlib.Core.List.{List, [], ◌∷◌, ◌++◌, reverse, reverse-cons}
use native.Mathlib.Omega.{arith}
use paymage.Base.Lists.{All, Elem, Distinct, sum, length}

pub data Perm {A : Type 0} : List A → List A → Type 0 where
  nil : Perm [] []
  keep : {xs ys : List A} (x : A) → Perm xs ys → Perm (x ∷ xs) (x ∷ ys)
  swap : (x y : A) (xs : List A) → Perm (x ∷ y ∷ xs) (y ∷ x ∷ xs)
  trans : {xs ys zs : List A} → Perm xs ys → Perm ys zs → Perm xs zs

pub Perm-refl : {A : Type 0} (xs : List A) → Perm xs xs
Perm-refl [] = nil
Perm-refl (x ∷ xs) = keep x (Perm-refl xs)

module _ {A : Type 0} where
  pub All-Perm : (P : A → Type 0) {xs ys : List A} → Perm xs ys → All P xs → All P ys
  All-Perm P nil h = h
  All-Perm P (keep x p) h = (h.0, All-Perm P p h.1)
  All-Perm P (swap x y xs) h = (h.1.0, (h.0, h.1.1))
  All-Perm P (trans p q) h = All-Perm P q (All-Perm P p h)

  pub length-Perm : {xs ys : List A} → Perm xs ys → length xs ≡ length ys
  length-Perm nil = refl
  length-Perm (keep x p) = ap suc (length-Perm p)
  length-Perm (swap x y xs) = refl
  length-Perm (trans p q) = length-Perm p ∙ length-Perm q

  Perm-snoc : (x : A) (xs : List A) → Perm (x ∷ xs) (xs ++ x ∷ [])
  Perm-snoc x [] = keep x nil
  Perm-snoc x (y ∷ ys) = trans (swap x y ys) (keep y (Perm-snoc x ys))

  pub Perm-reverse : (xs : List A) → Perm xs (reverse xs)
  Perm-reverse [] = nil
  Perm-reverse (x ∷ xs) =
      rw reverse-cons (trans (keep x (Perm-reverse xs)) (Perm-snoc x (reverse xs)))

pub sum-Perm : {xs ys : List ℕ} → Perm xs ys → sum xs ≡ sum ys
sum-Perm nil = refl
sum-Perm (keep x p) = omega (arith, sum-Perm p)
sum-Perm (swap x y xs) = omega arith
sum-Perm (trans p q) = sum-Perm p ∙ sum-Perm q

pub Elem-Perm : (a : ℕ) {xs ys : List ℕ} → Perm xs ys → Elem a xs → Elem a ys
Elem-Perm a nil h = h
Elem-Perm a (keep x p) (inl e) = inl e
Elem-Perm a (keep x p) (inr h) = inr (Elem-Perm a p h)
Elem-Perm a (swap x y xs) (inl e) = inr (inl e)
Elem-Perm a (swap x y xs) (inr (inl e)) = inl e
Elem-Perm a (swap x y xs) (inr (inr h)) = inr (inr h)
Elem-Perm a (trans p q) h = Elem-Perm a q (Elem-Perm a p h)

pub Perm-sym : {A : Type 0} {xs ys : List A} → Perm xs ys → Perm ys xs
Perm-sym nil = nil
Perm-sym (keep x p) = keep x (Perm-sym p)
Perm-sym (swap x y xs) = swap y x xs
Perm-sym (trans p q) = trans (Perm-sym q) (Perm-sym p)

pub Distinct-Perm : {xs ys : List ℕ} → Perm xs ys → Distinct xs → Distinct ys
Distinct-Perm nil h = h
Distinct-Perm (keep x p) h = ((λ e. h.0 (Elem-Perm x (Perm-sym p) e)), Distinct-Perm p h.1)
Distinct-Perm (swap x y xs) h = (elim_swap, ((λ e. h.0 (inr e)), h.1.1))
  where
    elim_swap : ¬ Elem y (x ∷ xs)
    elim_swap (inl e) = h.0 (inl (cc))
    elim_swap (inr e) = h.1.0 e
Distinct-Perm (trans p q) h = Distinct-Perm q (Distinct-Perm p h)
