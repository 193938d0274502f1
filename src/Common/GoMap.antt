-- ===== src/Common/GoMap.antt =====
-- Go's `map[K]V`, as a list of its entries in the order in which `range` visits them. The order is
-- left open.
pub mod Laws
pub mod Keys
pub mod Ends
use Prim.Native.Nat.{ℕ, suc}
use mathlib.Core.Bool.{Bool, true, false}
use mathlib.Core.Option.{Option, none, some}
use mathlib.Core.List.{List, [], ◌∷◌}
use seven_db.Common.Tests.{if◌then◌else◌}
use seven_db.Common.Comparable.{Comparable, ◌==◌}

abbrev pub GoMap {ℓ} : Type ℓ → Type ℓ → Type ℓ
GoMap K V = List (K × V)

module _ {ℓ} {K V : Type ℓ} ⦃e : Comparable K⦄ where
  -- v, ok := m[k]
  unfoldable pub get : GoMap K V → K → Option V
  get [] k = none
  get ((j, v) ∷ m) k = if j == k then some v else get m k

  -- _, ok := m[k]
  unfoldable pub has : GoMap K V → K → Bool
  has [] k = false
  has ((j, v) ∷ m) k = if j == k then true else has m k

  -- m[k] = v
  unfoldable pub put : GoMap K V → K → V → GoMap K V
  put [] k v = (k, v) ∷ []
  put ((j, w) ∷ m) k v = if j == k then (k, v) ∷ m else (j, w) ∷ put m k v

  -- delete(m, k)
  unfoldable pub remove : GoMap K V → K → GoMap K V
  remove [] k = []
  remove ((j, v) ∷ m) k = let rest = remove m k in if j == k then rest else (j, v) ∷ rest

module _ {ℓ} {K V : Type ℓ} where
  -- len(m)
  abbrev pub size : GoMap K V → ℕ
  size [] = 0
  size (x ∷ m) = suc (size m)

  -- for k := range m
  abbrev pub keys : GoMap K V → List K
  keys [] = []
  keys ((k, v) ∷ m) = k ∷ keys m

-- v, with the type's zero value where the map has no such key
abbrev pub or_zero {ℓ} : {V : Type ℓ} → V → Option V → V
or_zero z none = z
or_zero z (some v) = v
