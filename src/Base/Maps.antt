-- ===== src/Base/Maps.antt =====
-- Maps from numbers: a family of storage entries under one parametrised key.
use Prim.Native.Nat.{ℕ}
use mathlib.Core.Path.{◌≡◌}
use mathlib.Core.Option.{Option, none, some}
use native.Mathlib.Omega.{arith}
use paymage.Base.Tests.{◌==◌, if◌then◌else◌}

abbrev pub Map {ℓ} : Type ℓ → Type ℓ
Map V = ℕ → Option V

module _ {ℓ} {V : Type ℓ} where
  abbrev pub empty : Map V
  empty k = none

  abbrev pub insert : ℕ → V → Map V → Map V
  insert k v m j = if k == j then some v else m j

  pub insert_self : (k : ℕ) (v : V) (m : Map V) → insert k v m k ≡ some v
  insert_self k v m = ground arith
