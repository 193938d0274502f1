-- ===== src/Common/GoMap/Keys.antt =====
-- Maps hold each key once: the condition, and that the operations keep it.
use seven_db.Common.Tests.{if◌then◌else◌}
use seven_db.Common.Comparable.{Comparable, ◌==◌}
use seven_db.Common.GoMap.{GoMap, has, put, remove, size, keys}
use seven_db.Common.Lists.{length}
use Prim.Native.Nat.{ℕ, ◌+◌}
use mathlib.Core.Path.{◌≡◌, refl, ap}
use mathlib.Core.Bool.{true, false}
use mathlib.Core.List.{[], ◌∷◌}
use native.Mathlib.Omega.{arith}

module _ {ℓ} {K V : Type ℓ} ⦃e : Comparable K⦄ where
  abbrev pub IsMap : GoMap K V → Type 0
  IsMap [] = Unit
  IsMap ((k, v) ∷ m) = (has m k ≡ false) × IsMap m

  pub has-put :
      (m : GoMap K V) (k : K) (v : V) (j : K)
      → has (put m k v) j ≡ (if k == j then true else has m j)
  unfolding has put
  has-put [] k v j = refl
  has-put ((i, w) ∷ m) k v j =
      ground (arith, e.equal_iff k j, e.equal_iff i k, e.equal_iff i j, has-put m k v j)

  pub has-remove :
      (m : GoMap K V) (k j : K) → has (remove m k) j ≡ (if k == j then false else has m j)
  unfolding has remove
  has-remove [] k j = ground arith
  has-remove ((i, w) ∷ m) k j =
      ground (arith, e.equal_iff k j, e.equal_iff i k, e.equal_iff i j, has-remove m k j)

  pub put-IsMap : (m : GoMap K V) (k : K) (v : V) → IsMap m → IsMap (put m k v)
  unfolding put has
  put-IsMap [] k v h = (refl, tt)
  put-IsMap ((i, w) ∷ m) k v h =
      ground (arith, e.equal_iff i k, e.equal_iff k i, has-put m k v i, put-IsMap m k v h.1)

  pub remove-IsMap : (m : GoMap K V) (k : K) → IsMap m → IsMap (remove m k)
  unfolding remove
  remove-IsMap [] k h = tt
  remove-IsMap ((i, w) ∷ m) k h = ground (arith, has-remove m k i, remove-IsMap m k h.1)

  pub remove_absent : (m : GoMap K V) (k : K) → has m k ≡ false → remove m k ≡ m
  unfolding remove has
  remove_absent [] k h = refl
  remove_absent ((i, w) ∷ m) k h = ground (arith, remove_absent m k)

  pub size-remove :
      (m : GoMap K V) (k : K) → IsMap m → size (remove m k) + (if has m k then 1 else 0) ≡ size m
  unfolding remove has
  size-remove [] k h = ground arith
  size-remove ((i, w) ∷ m) k h =
      ground (arith, e.equal_iff i k, size-remove m k h.1, remove_absent m k)

pub length-keys {ℓ} : {K V : Type ℓ} (m : GoMap K V) → length (keys m) ≡ size m
length-keys [] = refl
length-keys ((k, v) ∷ m) = ap Prim.Native.Nat.suc (length-keys m)
