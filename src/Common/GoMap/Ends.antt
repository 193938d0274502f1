-- ===== src/Common/GoMap/Ends.antt =====
-- A map whose last entry is put, read or appended.
use mathlib.Core.Path.{◌≡◌, refl}
use mathlib.Core.Bool.{false}
use mathlib.Core.Option.{none, some}
use mathlib.Core.List.{[], ◌∷◌, ◌++◌}
use native.Mathlib.Omega.{arith}
use seven_db.Common.Comparable.{Comparable, ◌==◌}
use seven_db.Common.GoMap.{GoMap, get, has, put}
use seven_db.Common.GoMap.Laws.{eq_self}

module _ {ℓ} {K V : Type ℓ} ⦃e : Comparable K⦄ where
  pub get-absent : (m : GoMap K V) (k : K) → has m k ≡ false → get m k ≡ none
  unfolding get has
  get-absent [] k h = refl
  get-absent ((j, w) ∷ m) k h = ground (arith, get-absent m k)

  pub put-absent :
      (m : GoMap K V) (k : K) (v : V) → has m k ≡ false → put m k v ≡ m ++ ((k, v) ∷ [])
  unfolding put has
  put-absent [] k v h = refl
  put-absent ((j, w) ∷ m) k v h = ground (arith, put-absent m k v)

  pub get-append :
      (m : GoMap K V) (k : K) (v : V) → has m k ≡ false → get (m ++ ((k, v) ∷ [])) k ≡ some v
  unfolding get has
  get-append [] k v h = ground (arith, eq_self k)
  get-append ((j, w) ∷ m) k v h = ground (arith, get-append m k v)

  pub put-append :
      (m : GoMap K V) (k : K) (v w : V)
      → has m k ≡ false
      → put (m ++ ((k, v) ∷ [])) k w ≡ m ++ ((k, w) ∷ [])
  unfolding put has
  put-append [] k v w h = ground (arith, eq_self k)
  put-append ((j, x) ∷ m) k v w h = ground (arith, put-append m k v w)

  pub has-append :
      (m : GoMap K V) (k j : K) (v : V)
      → has m k ≡ false
      → (j == k) ≡ false
      → has (m ++ ((j, v) ∷ [])) k ≡ false
  unfolding has
  has-append [] k j v h d = ground arith
  has-append ((i, x) ∷ m) k j v h d = ground (arith, has-append m k j v)
