-- ===== src/Common/GoMap/Laws.antt =====
-- What the operations on maps do to `get`, `size` and the keys.
use seven_db.Common.Tests.{if◌then◌else◌, Bool-cases}
use seven_db.Common.Comparable.{Comparable, ◌==◌}
use seven_db.Common.GoMap.{GoMap, get, has, put, remove, size}
use Prim.Native.Nat.{suc}
use mathlib.Core.Path.{◌≡◌, refl, sym, ap, subst, ◌∙◌}
use mathlib.Core.Bool.{Bool, true, false}
use mathlib.Core.Logic.{inl, inr}
use mathlib.Core.Option.{Option, none, some, some-injective}
use mathlib.Core.List.{[], ◌∷◌}
use native.Mathlib.Omega.{arith}

abbrev pub is_some {ℓ} : {A : Type ℓ} → Option A → Bool
is_some none = false
is_some (some a) = true

module _ {ℓ} {K V : Type ℓ} ⦃e : Comparable K⦄ where
  pub get-put :
      (m : GoMap K V) (k : K) (v : V) (j : K)
      → get (put m k v) j ≡ (if k == j then some v else get m j)
  unfolding get put
  get-put [] k v j = refl
  get-put ((i, w) ∷ m) k v j =
      ground (arith, e.equal_iff k j, e.equal_iff i k, e.equal_iff i j, get-put m k v j)

  pub get-remove :
      (m : GoMap K V) (k j : K) → get (remove m k) j ≡ (if k == j then none else get m j)
  unfolding get remove
  get-remove [] k j = ground arith
  get-remove ((i, w) ∷ m) k j =
      ground (arith, e.equal_iff k j, e.equal_iff i k, e.equal_iff i j, get-remove m k j)

  pub has-get : (m : GoMap K V) (k : K) → has m k ≡ is_some (get m k)
  unfolding get has
  has-get [] k = refl
  has-get ((j, v) ∷ m) k = ground (arith, has-get m k)

  pub size-put :
      (m : GoMap K V) (k : K) (v : V)
      → size (put m k v) ≡ (if has m k then size m else suc (size m))
  unfolding has put
  size-put [] k v = refl
  size-put ((j, w) ∷ m) k v = ground (arith, size-put m k v)

pub eq_self {ℓ} : {K : Type ℓ} ⦃e : Comparable K⦄ (k : K) → (k == k) ≡ true
eq_self ⦃e⦄ k = (e.equal_iff k k).1 refl

pub get-put_same {ℓ} :
    {K V : Type ℓ} ⦃e : Comparable K⦄ (m : GoMap K V) (k : K) (v : V) → get (put m k v) k ≡ some v
get-put_same m k v = get-put m k v k ∙ ap (λ t. if t then some v else get m k) (eq_self k)

pub get-put_other {ℓ} :
    {K V : Type ℓ} ⦃e : Comparable K⦄ (m : GoMap K V) (k j : K) (v : V)
    → (k == j) ≡ false
    → get (put m k v) j ≡ get m j
get-put_other m k j v h = get-put m k v j ∙ ap (λ t. if t then some v else get m j) h

-- What holds of all values holds of them after an update, given it of the new value.
module _ {ℓ} {K V : Type ℓ} ⦃e : Comparable K⦄ (P : V → Type 0) where
  abbrev pub Values : GoMap K V → Type ℓ
  Values m = (j : K) (x : V) → get m j ≡ some x → P x

  pub put-Values : (m : GoMap K V) (k : K) (v : V) → P v → Values m → Values (put m k v)
  put-Values m k v pv h j x g = elim (Bool-cases (k == j)) [
    | inl here ↦
        subst P
          (some-injective v x
            (sym (get-put m k v j ∙ ap (λ b. if b then some v else get m j) here) ∙ g))
          pv
    | inr there ↦ h j x (sym (get-put m k v j ∙ ap (λ b. if b then some v else get m j) there) ∙ g)
  ]

  pub remove-Values : (m : GoMap K V) (k : K) → Values m → Values (remove m k)
  remove-Values m k h j x g = elim (Bool-cases (k == j)) [
    | inl here ↦ absurd (ground (arith, get-remove m k j))
    | inr there ↦ h j x (sym (get-remove m k j ∙ ap (λ b. if b then none else get m j) there) ∙ g)
  ]
