-- ===== src/Raft/Validator/Seeded.antt =====
-- Seeding a validator, and many tuples one after another.
use mathlib.Core.List.{append_assoc, append-nil}
use native.Mathlib.Nat.{mod-eq_of_lt, mod_self, mod-lt}
use seven_db.Common.{
  ℕ, zero, suc, ◌+◌, ◌-◌, ◌%◌, ◌≡◌, ◌<◌, ◌≤◌, inl, inr, refl, sym, ap, ◌∙◌, List, [], ◌∷◌, ◌++◌,
  nat_beq, arith, if-false,
}
use seven_db.Common.Lists.{length, length-append, drop}
use seven_db.RaftWal.Replay.{last_n}
use seven_db.Raft.Validator.{
  WalValidator, zeros, set_at, at, add_checked, window, snapshot, overwrite, seed_tuples,
}
use seven_db.Raft.Validator.Window.{
  IsRing, add_checked-IsRing, length-set_at, at-set_at, shift, wrap,
}
use seven_db.Raft.Validator.Recent.{snapshot-add_checked}

module _ {A : Type 0} where
  drop_nil : (i : ℕ) → drop {A = A} i [] ≡ []
  drop_nil zero = refl
  drop_nil (suc i) = refl

  drop-drop : (i j : ℕ) (xs : List A) → drop i (drop j xs) ≡ drop (j + i) xs
  drop-drop i zero xs = ap (λ k. drop k xs) (omega arith)
  drop-drop i (suc j) [] = drop_nil i ∙ sym (drop_nil (suc j + i))
  drop-drop i (suc j) (x ∷ xs) =
      drop-drop i j xs ∙ ap (λ k. drop k (x ∷ xs)) {x = suc (j + i)} {y = suc j + i} (omega arith)

  drop-append : (i : ℕ) (xs ys : List A) → i ≤ length xs → drop i (xs ++ ys) ≡ drop i xs ++ ys
  drop-append zero xs ys h = refl
  drop-append (suc i) [] ys h = absurd (omega (arith, h))
  drop-append (suc i) (x ∷ xs) ys h = drop-append i xs ys (omega (arith, h))

  pub length-drop : (i : ℕ) (xs : List A) → length (drop i xs) ≡ length xs - i
  length-drop zero xs = omega arith
  length-drop (suc i) [] = omega arith
  length-drop (suc i) (x ∷ xs) = length-drop i xs ∙ omega arith

  pub length-last_n : (n : ℕ) (xs : List A) → length (last_n n xs) ≤ n
  unfolding last_n
  length-last_n n xs = omega (arith, length-drop (length xs - n) xs)

  -- a part of the tail is a part of the whole
  pub last_n-append : (n : ℕ) (xs ys : List A) → last_n n (last_n n xs ++ ys) ≡ last_n n (xs ++ ys)
  unfolding last_n
  last_n-append n xs ys =
      let k = length xs - n in
      ap (λ zs. drop (length zs - n) zs) (sym (drop-append k xs ys (omega arith)))
      ∙ drop-drop (length (drop k (xs ++ ys)) - n) k (xs ++ ys)
      ∙ ap (λ j. drop j (xs ++ ys)) {x = k + (length (drop k (xs ++ ys)) - n)}
          {y = length (xs ++ ys) - n} (omega (arith, length-drop k (xs ++ ys), length-append xs ys))

-- addTuple for one tuple after another
unfoldable pub add_all : List (ℕ × ℕ) → WalValidator → WalValidator
add_all [] v = v
add_all (t ∷ ts) v = add_all ts (add_checked t v)

-- What a ring shows after more tuples is the tail of what it showed and them.
pub snapshot-add_all :
    (ts xs : List (ℕ × ℕ)) (v : WalValidator)
    → IsRing v
    → snapshot v ≡ last_n v.capacity xs
    → snapshot (add_all ts v) ≡ last_n v.capacity (xs ++ ts)
unfolding add_all add_checked
snapshot-add_all [] xs v h e = e ∙ ap (last_n v.capacity) (sym (append-nil xs))
snapshot-add_all (t ∷ ts) xs v h e =
    snapshot-add_all ts (xs ++ (t ∷ [])) (add_checked t v) (add_checked-IsRing t v h) (
      snapshot-add_checked t v h
      ∙ ap (λ zs. last_n v.capacity (zs ++ (t ∷ []))) e
      ∙ last_n-append v.capacity xs (t ∷ []))
    ∙ ap (last_n v.capacity) (append_assoc xs (t ∷ []) ts)

at-overwrite_before :
    (r : List (ℕ × ℕ)) (i p : ℕ) (ts : List (ℕ × ℕ))
    → i + length ts ≤ length r
    → p < i
    → at (overwrite r i ts) p ≡ at r p
unfolding overwrite
at-overwrite_before r i p [] h l = refl
at-overwrite_before r i p (t ∷ ts) h l =
    at-overwrite_before (set_at r i t) (suc i) p ts (omega (arith, h, length-set_at r i t))
      (omega (arith, l))
    ∙ at-set_at r i p t (omega (arith, h))
    ∙ if-false (nat_beq i p) t (at r p) (ground (arith, l))

at-overwrite :
    (r : List (ℕ × ℕ)) (i j : ℕ) (ts : List (ℕ × ℕ))
    → i + length ts ≤ length r
    → j < length ts
    → at (overwrite r i ts) (i + j) ≡ at ts j
unfolding overwrite at
at-overwrite r i j [] h l = absurd (omega (arith, l))
at-overwrite r i zero (t ∷ ts) h l =
    ap (at (overwrite (set_at r i t) (suc i) ts)) {x = i + 0} {y = i} (omega arith)
    ∙ at-overwrite_before (set_at r i t) (suc i) i ts (omega (arith, h, length-set_at r i t))
        (omega arith)
    ∙ at-set_at r i i t (omega (arith, h))
    ∙ ground arith
at-overwrite r i (suc j) (t ∷ ts) h l =
    ap (at (overwrite (set_at r i t) (suc i) ts)) {x = i + suc j} {y = suc i + j} (omega arith)
    ∙ at-overwrite (set_at r i t) (suc i) j ts (omega (arith, h, length-set_at r i t))
        (omega (arith, l))

length-overwrite :
    (r : List (ℕ × ℕ)) (i : ℕ) (ts : List (ℕ × ℕ)) → length (overwrite r i ts) ≡ length r
unfolding overwrite
length-overwrite r i [] = refl
length-overwrite r i (t ∷ ts) = length-overwrite (set_at r i t) (suc i) ts ∙ length-set_at r i t

-- a window on a list
window_is :
    (q : List (ℕ × ℕ)) (n s i : ℕ) (ts : List (ℕ × ℕ))
    → ((j : ℕ) → j < length ts → at q ((s + (i + j)) % n) ≡ at ts j)
    → window q n s i (length ts) ≡ ts
unfolding window at
window_is q n s i [] h = refl
window_is q n s i (t ∷ ts) h =
    ap (λ x. x ∷ window q n s (suc i) (length ts))
      (shift q n s {i = i} {j = i + 0} (omega arith) ∙ h 0 (omega arith))
    ∙ ap (λ xs. t ∷ xs)
        (window_is q n s (suc i) ts (λ j l.
          shift q n s {i = suc i + j} {j = i + suc j} (omega arith) ∙ h (suc j) (omega (arith, l))))

-- the first place of a ring that was filled from its start
seeded_place : (n k : ℕ) → 0 < n → k ≤ n → (k % n + n - k) % n ≡ 0
seeded_place n k h l = elim (wrap k n (omega (arith, h, l))) [
  | inl low ↦
      ap (λ i. (i + n - k) % n) low.1
      ∙ ap (λ i. i % n) {x = k + n - k} {y = n} (omega arith)
      ∙ mod_self n
  | inr high ↦
      ap (λ i. (i + n - k) % n) high.1
      ∙ ap (λ i. i % n) {x = k - n + n - k} {y = 0} (omega (arith, high.0, l))
      ∙ mod-eq_of_lt h
]

-- the ring of a seeded validator shows its tuples
overwrite-window :
    (r : List (ℕ × ℕ)) (n : ℕ) (ts : List (ℕ × ℕ))
    → 0 < n
    → length r ≡ n
    → length ts ≤ n
    → window (overwrite r 0 ts) n ((length ts % n + n - length ts) % n) 0 (length ts) ≡ ts
overwrite-window r n ts h e l =
    ap (λ s. window (overwrite r 0 ts) n s 0 (length ts)) (seeded_place n (length ts) h l)
    ∙ window_is (overwrite r 0 ts) n 0 0 ts (λ j k.
      ap (at (overwrite r 0 ts)) (
        ap (λ i. i % n) {x = 0 + (0 + j)} {y = j} (omega arith)
        ∙ mod-eq_of_lt {n = j} {m = n} (omega (arith, k, l))
        ∙ omega arith)
      ∙ at-overwrite r 0 j ts (omega (arith, l, e)) k)

length-zeros : (n : ℕ) → length (zeros n) ≡ n
unfolding zeros
length-zeros zero = refl
length-zeros (suc n) = ap suc (length-zeros n)

-- a new ring of a capacity
abbrev pub empty_ring : ℕ → WalValidator
empty_ring n = record { capacity = n; ring = zeros n; idx = 0; count = 0 }

pub seed_tuples-IsRing :
    (n : ℕ) (ts : List (ℕ × ℕ)) → 0 < n → IsRing (seed_tuples ts (empty_ring n))
unfolding seed_tuples
seed_tuples-IsRing n [] h = record {
  has_room = h;
  length_is = length-zeros n;
  idx_fits = h;
  count_fits = omega arith;
}
seed_tuples-IsRing n (t ∷ ts) h = record {
  has_room = h;
  length_is = length-overwrite (zeros n) 0 (last_n n (t ∷ ts)) ∙ length-zeros n;
  idx_fits = mod-lt (length (last_n n (t ∷ ts))) h;
  count_fits = length-last_n n (t ∷ ts);
}

pub snapshot-seed_tuples :
    (n : ℕ) (ts : List (ℕ × ℕ)) → 0 < n → snapshot (seed_tuples ts (empty_ring n)) ≡ last_n n ts
unfolding seed_tuples snapshot window last_n
snapshot-seed_tuples n [] h = sym (drop_nil {A = ℕ × ℕ} (0 - n))
snapshot-seed_tuples n (t ∷ ts) h =
    overwrite-window (zeros n) n (last_n n (t ∷ ts)) h (length-zeros n) (length-last_n n (t ∷ ts))

-- A validator that was seeded with tuples, and then given others one by one, shows the last of all of
-- them, from the oldest to the newest: as many as it has room for, or all where there are less. The
-- condition is that it has room for at least one.
pub snapshot-seeded :
    (n : ℕ) (seeds ts : List (ℕ × ℕ))
    → 0 < n
    → snapshot (add_all ts (seed_tuples seeds (empty_ring n))) ≡ last_n n (seeds ++ ts)
unfolding seed_tuples
snapshot-seeded n [] ts h =
    snapshot-add_all ts [] (seed_tuples [] (empty_ring n)) (seed_tuples-IsRing n [] h)
      (snapshot-seed_tuples n [] h)
snapshot-seeded n (s ∷ ss) ts h =
    snapshot-add_all ts (s ∷ ss) (seed_tuples (s ∷ ss) (empty_ring n))
      (seed_tuples-IsRing n (s ∷ ss) h) (snapshot-seed_tuples n (s ∷ ss) h)
