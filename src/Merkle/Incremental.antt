-- ===== src/Merkle/Incremental.antt =====
-- The path loop computes the root of the tree with the new node, and keeps the stored left siblings
-- fit for the next one.
use paymage.Base.{
  ℕ, zero, suc, ◌+◌, ◌-◌, ◌*◌, ◌/◌, ◌%◌, ◌≡◌, ◌<◌, ◌≤◌, ◌==◌, refl, true, false, some, insert,
  insert_self, arith, fun_ext, Bool-cases, inl, inr, ap, ◌∙◌,
}
use paymage.Host.Outcome.{ok}
use paymage.Host.Interface.{U256}
use paymage.Poseidon.{
  hash, zero_at, InField, Permutes, hash_lt, zero_at_lt, poseidon2_compress-hash,
}
use paymage.Merkle.Spec.{Level, update, halve, up, ascend}
use paymage.Merkle.Path.{Subtrees, absorb, insert_path}

module _ (perm : U256 → U256 → U256) (is_perm : Permutes perm) where
  -- Every hash of the level is a field element.
  abbrev pub LevelInField : Level → Type 0
  LevelInField f = (i : ℕ) → InField (f i)

  -- Past position `n` the level holds the hash of the empty subtree.
  abbrev pub Blank : ℕ → ℕ → Level → Type 0
  Blank lvl n f = (i : ℕ) → n < i → f i ≡ zero_at perm lvl

  -- For the `k` levels from `lvl` up, where the next node of that level goes to position `n`: a
  -- right child finds its left sibling stored, and the hash of the empty subtree is stored.
  abbrev pub Fits : ℕ → ℕ → ℕ → Level → Subtrees → Type 0
  Fits zero lvl n f s = Unit
  Fits (suc k) lvl n f s =
      (n % 2 ≡ 1 → s.filled lvl ≡ some (f (n - 1)))
      × (s.zeroes lvl ≡ some (zero_at perm lvl))
      × Fits k (suc lvl) (n / 2) (up perm f) s

  -- Two stores that agree on the levels from `lvl` up.
  abbrev Agree : ℕ → Subtrees → Subtrees → Type 0
  Agree lvl s s' = ((j : ℕ) → lvl ≤ j → s'.filled j ≡ s.filled j) × (s'.zeroes ≡ s.zeroes)

  Agree-Fits :
      (k lvl n : ℕ) (f : Level) (s s' : Subtrees)
      → Agree lvl s s'
      → Fits k lvl n f s
      → Fits k lvl n f s'
  Agree-Fits zero lvl n f s s' a h = tt
  Agree-Fits (suc k) lvl n f s s' a h = (
    (λ odd. a.0 lvl (omega arith) ∙ h.0 odd),
    rw a.1 h.1,
    Agree-Fits k (suc lvl) (n / 2) (up perm f) s s' ((λ j le. a.0 j (omega arith)), a.1) h.2,
  )

  pub up-LevelInField : (f : Level) → LevelInField (up perm f)
  unfolding up
  up-LevelInField f i = hash_lt perm (f (2 * i)) (f (2 * i + 1))

  up-Blank : (lvl n : ℕ) (f : Level) → Blank lvl n f → Blank (suc lvl) (n / 2) (up perm f)
  unfolding up zero_at
  up-Blank lvl n f b i h = rw (b (2 * i) (omega arith), b (2 * i + 1) (omega arith))

  -- The level above after a node at an odd position, and after one at an even position.
  pub up-update_odd :
      (f : Level) (n x : ℕ)
      → n % 2 ≡ 1
      → up perm (update f n x) ≡ update (up perm f) (n / 2) (hash perm (f (n - 1)) x)
  unfolding up
  up-update_odd f n x odd = fun_ext λ i. ground arith

  pub up-update_even :
      (f : Level) (n x : ℕ)
      → n % 2 ≡ 0
      → up perm (update f n x) ≡ update (up perm f) (n / 2) (hash perm x (f (n + 1)))
  unfolding up
  up-update_even f n x even = fun_ext λ i. ground arith

module _ {E : Type 0} (missing : E) (perm : U256 → U256 → U256) (is_perm : Permutes perm) where
  -- What the loop over `k` levels leaves when the node `x` goes to position `n` of the level `f`.
  pub record Absorbed (k lvl n x : ℕ) (f : Level) (s s' : Subtrees) : Type 0 where
    pub runs :
        insert_path missing perm k lvl n x s ≡ ok (ascend perm k (update f n x) (halve k n)) s'
    pub next : Fits perm is_perm k lvl (suc n) (update f n x) s'
    pub again : Fits perm is_perm k lvl n (update f n x) s'
    pub below : (j : ℕ) → j < lvl → s'.filled j ≡ s.filled j
    pub same_zeroes : s'.zeroes ≡ s.zeroes

  absorb-right :
      (lvl l x : ℕ) (s : Subtrees)
      → s.filled lvl ≡ some l
      → InField l
      → InField x
      → absorb missing perm lvl true x s ≡ ok (hash perm l x) s
  unfolding absorb
  absorb-right lvl l x s h p q = ground (arith, poseidon2_compress-hash perm l x is_perm p q)

  absorb-left :
      (lvl z x : ℕ) (s : Subtrees)
      → s.zeroes lvl ≡ some z
      → InField x
      → InField z
      → absorb missing perm lvl false x s
        ≡ ok (hash perm x z) (record s { filled = insert lvl x s.filled })
  unfolding absorb
  absorb-left lvl z x s h p q = ground (arith, poseidon2_compress-hash perm x z is_perm p q)

  module _ (k lvl n x : ℕ) (f : Level) (s : Subtrees) (fits : Fits perm is_perm (suc k) lvl n f s)
      (x_in : InField x) (f_in : LevelInField perm is_perm f)
      (blank : Blank perm is_perm lvl n f) where
    Absorbed-odd :
        {s' : Subtrees}
        → n % 2 ≡ 1
        → Absorbed k (suc lvl) (n / 2) (hash perm (f (n - 1)) x) (up perm f) s s'
        → Absorbed (suc k) lvl n x f s s'
    unfolding insert_path absorb ascend halve
    Absorbed-odd {s'} odd h =
        let e = up-update_odd perm is_perm f n x odd in
        let n' : suc n / 2 ≡ suc (n / 2) = omega arith in
        record {
          runs = ground (
            arith,
            absorb-right lvl (f (n - 1)) x s (fits.0 odd) (f_in (n - 1)) x_in,
            h.runs,
            ap (λ (g : Level). ascend perm k g (halve k (n / 2))) e,
          );
          next = ((λ even. absurd (omega arith)), rw h.same_zeroes fits.1, rw (n', e) h.next);
          again = (
            (λ _. h.below lvl (omega arith) ∙ fits.0 odd ∙ ap some (ground arith)),
            rw h.same_zeroes fits.1,
            rw e h.again,
          );
          below = λ j lt. h.below j (omega arith);
          same_zeroes = h.same_zeroes;
        }

    Absorbed-even :
        {s' : Subtrees}
        → n % 2 ≡ 0
        → Absorbed k
            (suc lvl)
            (n / 2)
            (hash perm x (zero_at perm lvl))
            (up perm f)
            (record s { filled = insert lvl x s.filled })
            s'
        → Absorbed (suc k) lvl n x f s s'
    unfolding insert_path absorb ascend halve
    Absorbed-even {s'} even h =
        let e : up perm (update f n x)
            ≡ update (up perm f) (n / 2) (hash perm x (zero_at perm lvl)) =
          up-update_even perm is_perm f n x even
          ∙ ap (λ t. update (up perm f) (n / 2) (hash perm x t)) (blank (n + 1) (omega arith)) in
        let n' : suc n / 2 ≡ n / 2 = omega arith in
        record {
          runs = ground (
            arith,
            absorb-left lvl (zero_at perm lvl) x s fits.1 x_in (zero_at_lt perm lvl),
            h.runs,
            ap (λ (g : Level). ascend perm k g (halve k (n / 2))) e,
          );
          next = (
            (λ _. h.below lvl (omega arith) ∙ insert_self lvl x s.filled ∙ ap some (ground arith)),
            rw h.same_zeroes fits.1,
            rw (n', e) h.again,
          );
          again = ((λ odd. absurd (omega arith)), rw h.same_zeroes fits.1, rw e h.again);
          below = λ j lt. h.below j (omega arith) ∙ ground arith;
          same_zeroes = h.same_zeroes;
        }

  -- The loop from a new node up computes the hash above it of the level with that node, and what it
  -- stores fits the next node, and a node at the same position.
  pub insert_path-Absorbed :
      (k lvl n x : ℕ) (f : Level) (s : Subtrees)
      → Fits perm is_perm k lvl n f s
      → InField x
      → LevelInField perm is_perm f
      → Blank perm is_perm lvl n f
      → (s' : Subtrees) × Absorbed k lvl n x f s s'
  unfolding insert_path ascend halve
  insert_path-Absorbed zero lvl n x f s fits x_in f_in blank = (
    s,
    record { runs = ground arith; next = tt; again = tt; below = λ j lt. refl; same_zeroes = refl },
  )
  insert_path-Absorbed (suc k) lvl n x f s fits x_in f_in blank = elim (Bool-cases (n % 2 == 1)) [
    | inl o ↦
        let odd : n % 2 ≡ 1 = ground arith in
        let (s', h) =
          insert_path-Absorbed k (suc lvl) (n / 2) (hash perm (f (n - 1)) x) (up perm f) s fits.2
            (hash_lt perm (f (n - 1)) x) (up-LevelInField perm is_perm f)
            (up-Blank perm is_perm lvl n f blank) in
        (s', Absorbed-odd k lvl n x f s fits x_in f_in blank odd h)
    | inr e ↦
        let even : n % 2 ≡ 0 = ground arith in
        let s₁ : Subtrees = record s { filled = insert lvl x s.filled } in
        let (s', h) =
          insert_path-Absorbed k (suc lvl) (n / 2) (hash perm x (zero_at perm lvl)) (up perm f) s₁
            (Agree-Fits perm is_perm k (suc lvl) (n / 2) (up perm f) s s₁
              ((λ j le. ground arith), refl) fits.2)
            (hash_lt perm x (zero_at perm lvl)) (up-LevelInField perm is_perm f)
            (up-Blank perm is_perm lvl n f blank) in
        (s', Absorbed-even k lvl n x f s fits x_in f_in blank even h)
  ]
