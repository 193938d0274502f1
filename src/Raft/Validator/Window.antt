-- ===== src/Raft/Validator/Window.antt =====
-- What the ring of a validator holds: the last tuples that it was given.
use native.Mathlib.Nat.{mod-eq_of_lt, mod-eq-sub-mod, mod-lt, mod-add-mod}
use seven_db.Common.{
  ℕ, zero, suc, ◌+◌, ◌-◌, ◌%◌, ◌≡◌, ◌<◌, ◌≤◌, ◌⊎◌, inl, inr, refl, sym, ap, subst, ◌∙◌, false, List,
  [], ◌∷◌, ◌++◌, if◌then◌else◌, nat_beq, ltb, if-false, arith, Bool-cases,
}
use seven_db.Common.Lists.{length}
use seven_db.Raft.Validator.{WalValidator, set_at, at, add_checked, window, snapshot}

-- a position below twice the capacity comes back once at most
pub wrap : (x n : ℕ) → x < n + n → ((x < n) × (x % n ≡ x)) ⊎ ((n ≤ x) × (x % n ≡ x - n))
wrap x n h = elim (Bool-cases (ltb x n)) [
  | inl low ↦ inl (ground (arith, low), mod-eq_of_lt (ground (arith, low)))
  | inr high ↦ inr (
    ground (arith, high),
    mod-eq-sub-mod (ground (arith, high)) ∙ mod-eq_of_lt (ground (arith, high)),
  )
]

pub at-set_at :
    (r : List (ℕ × ℕ)) (i j : ℕ) (t : ℕ × ℕ)
    → i < length r
    → at (set_at r i t) j ≡ (if nat_beq i j then t else at r j)
unfolding at set_at
at-set_at [] i j t h = absurd (omega (arith, h))
at-set_at (x ∷ xs) zero zero t h = ground arith
at-set_at (x ∷ xs) zero (suc j) t h = ground arith
at-set_at (x ∷ xs) (suc i) zero t h = ground arith
at-set_at (x ∷ xs) (suc i) (suc j) t h = at-set_at xs i j t (omega (arith, h)) ∙ ground arith

pub length-set_at : (r : List (ℕ × ℕ)) (i : ℕ) (t : ℕ × ℕ) → length (set_at r i t) ≡ length r
unfolding set_at
length-set_at [] i t = refl
length-set_at (x ∷ xs) zero t = refl
length-set_at (x ∷ xs) (suc i) t = ap suc (length-set_at xs i t)

pub length-window : (r : List (ℕ × ℕ)) (n s i k : ℕ) → length (window r n s i k) ≡ k
unfolding window
length-window r n s i zero = refl
length-window r n s i (suc k) = ap suc (length-window r n s (suc i) k)

pub window-last :
    (r : List (ℕ × ℕ)) (n s i k : ℕ)
    → window r n s i (suc k) ≡ window r n s i k ++ (at r ((s + (i + k)) % n) ∷ [])
unfolding window
window-last r n s i zero = ap (λ j. at r ((s + j) % n) ∷ []) (omega arith)
window-last r n s i (suc k) =
    ap (λ xs. at r ((s + i) % n) ∷ xs)
      (window-last r n s (suc i) k
        ∙ ap (λ j. window r n s (suc i) k ++ (at r ((s + j) % n) ∷ [])) (omega arith))

pub shift : (r : List (ℕ × ℕ)) (n s : ℕ) {i j : ℕ} → i ≡ j → at r ((s + i) % n) ≡ at r ((s + j) % n)
shift r n s e = ap (λ i. at r ((s + i) % n)) e

-- two windows that show the same
pub window_same :
    (r q : List (ℕ × ℕ)) (n s c i d k : ℕ)
    → ((j : ℕ) → j < k → at r ((s + (i + j)) % n) ≡ at q ((c + (d + j)) % n))
    → window r n s i k ≡ window q n c d k
unfolding window
window_same r q n s c i d zero h = refl
window_same r q n s c i d (suc k) h =
    ap (λ x. x ∷ window r n s (suc i) k)
      (shift r n s {i = i} {j = i + 0} (omega arith)
        ∙ h 0 (omega arith)
        ∙ shift q n c {i = d + 0} {j = d} (omega arith))
    ∙ ap (λ xs. at q ((c + d) % n) ∷ xs)
        (window_same r q n s c (suc i) (suc d) k (λ j l.
          shift r n s {i = suc i + j} {j = i + suc j} (omega arith)
          ∙ h (suc j) (omega (arith, l))
          ∙ shift q n c {i = d + suc j} {j = suc d + j} (omega arith)))

-- a validator with a ring of its capacity
pub record IsRing (v : WalValidator) : Type 0 where
  pub has_room : 0 < v.capacity
  pub length_is : length v.ring ≡ v.capacity
  pub idx_fits : v.idx < v.capacity
  pub count_fits : v.count ≤ v.capacity

pub add_checked-IsRing : (t : ℕ × ℕ) (v : WalValidator) → IsRing v → IsRing (add_checked t v)
unfolding add_checked
add_checked-IsRing t v h = record {
  has_room = h.has_room;
  length_is = length-set_at v.ring v.idx t ∙ h.length_is;
  idx_fits = mod-lt (v.idx + 1) h.has_room;
  count_fits = ground (arith, h.count_fits);
}

-- the place of the next tuple, reached from the first one
next_place : (n i c : ℕ) → i < n → c ≤ n → ((i + n - c) % n + c) % n ≡ i
next_place n i c h l =
    mod-add-mod (i + n - c) n c
    ∙ ap (λ x. x % n) {x = i + n - c + c} {y = i + n} (omega (arith, h, l))
    ∙ elim (wrap (i + n) n (omega (arith, h))) [
      | inl low ↦ absurd (omega (arith, low))
      | inr high ↦ high.1 ∙ omega arith
    ]

-- the places before it differ from it
pub other_place :
    (n i c j : ℕ)
    → i < n
    → c ≤ n
    → j < c
    → c < n + j
    → nat_beq i (((i + n - c) % n + j) % n) ≡ false
other_place n i c j h l less more =
    let x = i + n - c + j in
    ap (nat_beq i) (mod-add-mod (i + n - c) n j) ∙ elim (wrap x n (omega (arith, h, l, less))) [
      | inl low ↦ ap (nat_beq i) low.1 ∙ ground (arith, low.0, more, l)
      | inr high ↦ ap (nat_beq i) high.1 ∙ ground (arith, high.0, less, l, h)
    ]

-- a tuple more, with the index one further, leaves the first place
first_place : (n i c : ℕ) → i < n → c < n → ((i + 1) % n + n - suc c) % n ≡ (i + n - c) % n
first_place n i c h l = elim (wrap (i + 1) n (omega (arith, h))) [
  | inl low ↦
      ap (λ k. (k + n - suc c) % n) low.1
      ∙ ap (λ x. x % n) {x = i + 1 + n - suc c} {y = i + n - c} (omega (arith, l))
  | inr high ↦
      ap (λ k. (k + n - suc c) % n) high.1
      ∙ mod-eq_of_lt (omega (arith, h, l, high.0))
      ∙ elim (wrap (i + n - c) n (omega (arith, h, l))) [
        | inl low ↦ absurd (omega (arith, low.0, high.0, l))
        | inr again ↦ omega (arith, high.0, h, l) ∙ sym again.1
      ]
]

pub other_tuple :
    (v : WalValidator) (t : ℕ × ℕ) (p : ℕ)
    → IsRing v
    → nat_beq v.idx p ≡ false
    → at (set_at v.ring v.idx t) p ≡ at v.ring p
other_tuple v t p h d =
    at-set_at v.ring v.idx p t (subst (λ n. v.idx < n) (sym h.length_is) h.idx_fits)
    ∙ if-false (nat_beq v.idx p) t (at v.ring p) d

pub new_tuple :
    (v : WalValidator) (t : ℕ × ℕ) (p : ℕ) → IsRing v → p ≡ v.idx → at (set_at v.ring v.idx t) p ≡ t
new_tuple v t p h e =
    at-set_at v.ring v.idx p t (subst (λ n. v.idx < n) (sym h.length_is) h.idx_fits)
    ∙ ground (arith, e)

-- the ring is not full: the tuple comes behind the others
pub add_more :
    (t : ℕ × ℕ) (v : WalValidator)
    → IsRing v
    → v.count < v.capacity
    → window
        (set_at v.ring v.idx t)
        v.capacity
        (((v.idx + 1) % v.capacity + v.capacity - suc v.count) % v.capacity)
        0
        (suc v.count)
      ≡ snapshot v ++ (t ∷ [])
unfolding snapshot
add_more t v h less =
    let n = v.capacity in
    let q = set_at v.ring v.idx t in
    let s = (v.idx + n - v.count) % n in
    ap (λ c. window q n c 0 (suc v.count)) (first_place n v.idx v.count h.idx_fits less)
    ∙ window-last q n s 0 v.count
    ∙ ap (λ x. window q n s 0 v.count ++ (x ∷ []))
        (new_tuple v t ((s + (0 + v.count)) % n) h (
          ap (λ j. (s + j) % n) {x = 0 + v.count} {y = v.count} (omega arith)
          ∙ next_place n v.idx v.count h.idx_fits h.count_fits))
    ∙ ap (λ xs. xs ++ (t ∷ []))
        (window_same q v.ring n s s 0 0 v.count (λ j l. other_tuple v t ((s + (0 + j)) % n) h (
          ap (λ i. nat_beq v.idx ((s + i) % n)) {x = 0 + j} {y = j} (omega arith)
          ∙ other_place n v.idx v.count j h.idx_fits h.count_fits l (omega (arith, less)))))
