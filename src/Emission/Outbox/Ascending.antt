-- ===== src/Emission/Outbox/Ascending.antt =====
-- `sort_ints` on indices that fit a signed integer.
use seven_db.Common.{
  ℕ, ◌^◌, ◌<◌, ◌≡◌, refl, ◌⊎◌, inl, inr, ◌≢◌, Bool, true, false, List, [], ◌∷◌, arith,
  if◌then◌else◌, leb,
}
use seven_db.Common.Comparable.{nat_key, string_key}
use seven_db.Common.Lists.{All}
use seven_db.Emission.Outbox.{int_rank, insert_int, sort_ints}

-- an index that the conversion to a signed integer leaves alone
abbrev pub FitsInt : ℕ → Type 0
FitsInt i = i < 2 ^ 63

-- the elements rise strictly, under a key
module _ {A : Type 0} (key : A → ℕ) where
  abbrev pub IsAscending : List A → Type 0
  IsAscending [] = Unit
  IsAscending (x ∷ xs) = All (λ y. key x < key y) xs × IsAscending xs

-- no element occurs twice
abbrev pub Distinct : List ℕ → Type 0
Distinct [] = Unit
Distinct (k ∷ ks) = All (λ j. k ≢ j) ks × Distinct ks

-- the element is in the list
abbrev pub Occurs : {A : Type 0} → A → List A → Type 0
Occurs x [] = ⊥
Occurs x (y ∷ ys) = (x ≡ y) ⊎ Occurs x ys

abbrev pub own : ℕ → ℕ
own n = n

module _ (P : ℕ → Type 0) where
  pub All-insert_int : (k : ℕ) (js : List ℕ) → P k → All P js → All P (insert_int k js)
  unfolding insert_int
  All-insert_int k [] pk h = (pk, tt)
  All-insert_int k (j ∷ js) pk h = go (leb (int_rank k) (int_rank j)) (All-insert_int k js pk h.1)
    where
      go :
          (b : Bool)
          → All P (insert_int k js)
          → All P (if b then k ∷ j ∷ js else j ∷ insert_int k js)
      go true r = (pk, h)
      go false r = (h.0, r)

  pub All-sort_ints : (ks : List ℕ) → All P ks → All P (sort_ints ks)
  unfolding sort_ints
  All-sort_ints [] h = tt
  All-sort_ints (k ∷ ks) h = All-insert_int k (sort_ints ks) h.0 (All-sort_ints ks h.1)

All-lt_trans : (k j : ℕ) (js : List ℕ) → k < j → All (λ i. j < i) js → All (λ i. k < i) js
All-lt_trans k j [] h a = tt
All-lt_trans k j (i ∷ js) h a = (omega arith, All-lt_trans k j js h a.1)

insert_int-IsAscending :
    (k : ℕ) (js : List ℕ)
    → FitsInt k
    → All FitsInt js
    → All (λ j. k ≢ j) js
    → IsAscending own js
    → IsAscending own (insert_int k js)
unfolding insert_int
insert_int-IsAscending k [] f fs n a = (tt, tt)
insert_int-IsAscending k (j ∷ js) f fs n a =
    go (leb (int_rank k) (int_rank j)) refl (insert_int-IsAscending k js f fs.1 n.1 a.1)
  where
    go :
        (b : Bool)
        → leb (int_rank k) (int_rank j) ≡ b
        → IsAscending own (insert_int k js)
        → IsAscending own (if b then k ∷ j ∷ js else j ∷ insert_int k js)
    go true e r = let h : k < j = ground (arith, n.0, fs.0) in ((h, All-lt_trans k j js h a.0), a)
    go false e r = (All-insert_int (λ i. j < i) k js (ground (arith, fs.0)) a.0, r)

pub sort_ints-IsAscending :
    (ks : List ℕ) → All FitsInt ks → Distinct ks → IsAscending own (sort_ints ks)
unfolding sort_ints
sort_ints-IsAscending [] f d = tt
sort_ints-IsAscending (k ∷ ks) f d =
    insert_int-IsAscending k (sort_ints ks) f.0 (All-sort_ints FitsInt ks f.1)
      (All-sort_ints (λ j. k ≢ j) ks d.0) (sort_ints-IsAscending ks f.1 d.1)

Occurs-insert_int : (i k : ℕ) (js : List ℕ) → Occurs i (k ∷ js) → Occurs i (insert_int k js)
unfolding insert_int
Occurs-insert_int i k [] h = h
Occurs-insert_int i k (j ∷ js) h = ground (arith, Occurs-insert_int i k js)

pub Occurs-sort_ints : (i : ℕ) (ks : List ℕ) → Occurs i ks → Occurs i (sort_ints ks)
unfolding sort_ints
Occurs-sort_ints i [] h = h
Occurs-sort_ints i (k ∷ ks) (inl e) = Occurs-insert_int i k (sort_ints ks) (inl e)
Occurs-sort_ints i (k ∷ ks) (inr h) =
    Occurs-insert_int i k (sort_ints ks) (inr (Occurs-sort_ints i ks h))
