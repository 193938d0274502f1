-- ===== src/Raft/Validator/Recent.antt =====
-- A validator shows the last tuples that it was given or seeded with, as many as it has room for.
use native.Mathlib.Nat.{mod-add-mod}
use seven_db.Common.{
  ℕ, suc, ◌+◌, ◌-◌, ◌%◌, ◌≡◌, ◌<◌, ◌≤◌, inl, inr, sym, ap, ◌∙◌, List, [], ◌∷◌, ◌++◌, if◌then◌else◌,
  ltb, arith, Bool-cases,
}
use seven_db.Common.Lists.{length, length-append, drop}
use seven_db.RaftWal.Replay.{last_n}
use seven_db.Raft.Validator.{WalValidator, set_at, at, add_checked, window, snapshot}
use seven_db.Raft.Validator.Window.{
  IsRing, window_same, window-last, new_tuple, other_tuple, other_place, add_more, length-window,
  wrap,
}

-- in a full ring all places move by one
moved_place : (n i j : ℕ) → ((i + 1) % n + n - n) % n + j ≡ ((i + 1) % n) % n + j
moved_place n i j = ap (λ x. x % n + j) {x = (i + 1) % n + n - n} {y = (i + 1) % n} (omega arith)

moved : (n i j : ℕ) → (((i + 1) % n + n - n) % n + j) % n ≡ ((i + n - n) % n + suc j) % n
moved n i j =
    ap (λ x. x % n) (moved_place n i j)
    ∙ mod-add-mod ((i + 1) % n) n j
    ∙ mod-add-mod (i + 1) n j
    ∙ ap (λ x. x % n) {x = i + 1 + j} {y = i + n - n + suc j} (omega arith)
    ∙ sym (mod-add-mod (i + n - n) n (suc j))

-- the last of them is the place that was written
moved_last : (n m i : ℕ) → n ≡ suc m → i < n → (((i + 1) % n + n - n) % n + m) % n ≡ i
moved_last n m i e h =
    moved n i m
    ∙ mod-add-mod (i + n - n) n (suc m)
    ∙ ap (λ x. x % n) {x = i + n - n + suc m} {y = i + n} (omega (arith, e))
    ∙ elim (wrap (i + n) n (omega (arith, h))) [
      | inl low ↦ absurd (omega (arith, low.0))
      | inr high ↦ high.1 ∙ omega arith
    ]

-- the ring is full: the tuple comes behind the others, and the first of them is gone
add_full :
    (t : ℕ × ℕ) (v : WalValidator) (m : ℕ)
    → IsRing v
    → v.capacity ≡ suc m
    → window
        (set_at v.ring v.idx t)
        v.capacity
        (((v.idx + 1) % v.capacity + v.capacity - v.capacity) % v.capacity)
        0
        (suc m)
      ≡ window v.ring v.capacity ((v.idx + v.capacity - v.capacity) % v.capacity) 1 m ++ (t ∷ [])
add_full t v m h e =
    let n = v.capacity in
    let q = set_at v.ring v.idx t in
    let s = (v.idx + n - n) % n in
    let c = ((v.idx + 1) % n + n - n) % n in
    window-last q n c 0 m
    ∙ ap (λ x. window q n c 0 m ++ (x ∷ []))
        (new_tuple v t ((c + (0 + m)) % n) h (
          ap (λ j. (c + j) % n) {x = 0 + m} {y = m} (omega arith)
          ∙ moved_last n m v.idx e h.idx_fits))
    ∙ ap (λ xs. xs ++ (t ∷ []))
        (window_same q v.ring n c s 0 1 m (λ j l.
          ap (at q) (
            ap (λ i. (c + i) % n) {x = 0 + j} {y = j} (omega arith)
            ∙ moved n v.idx j
            ∙ ap (λ i. (s + i) % n) {x = suc j} {y = 1 + j} (omega arith))
          ∙ other_tuple v t ((s + (1 + j)) % n) h (
              other_place n v.idx n (1 + j) h.idx_fits (omega arith) (omega (arith, l, e))
                (omega arith))))

last_n_short : (n : ℕ) (xs : List (ℕ × ℕ)) → length xs ≤ n → last_n n xs ≡ xs
unfolding last_n
last_n_short n xs h = ap (λ k. drop k xs) {x = length xs - n} {y = 0} (omega (arith, h))

-- what the ring shows when its next tuple is at `i` and it counts `c`
abbrev shown : WalValidator → List (ℕ × ℕ) → ℕ → ℕ → List (ℕ × ℕ)
shown v q i c = window q v.capacity ((i + v.capacity - c) % v.capacity) 0 c

last_n_full :
    (n m : ℕ) (x t : ℕ × ℕ) (xs : List (ℕ × ℕ))
    → n ≡ suc m
    → length xs ≡ m
    → last_n n (x ∷ xs ++ (t ∷ [])) ≡ xs ++ (t ∷ [])
unfolding last_n
last_n_full n m x t xs e l =
    ap (λ k. drop k (x ∷ xs ++ (t ∷ []))) {x = length (x ∷ xs ++ (t ∷ [])) - n} {y = 1}
      (omega (arith, length-append xs (t ∷ []), e, l))

-- The tuple comes behind the others, and where the ring is full the first of them is gone.
pub snapshot-add_checked :
    (t : ℕ × ℕ) (v : WalValidator)
    → IsRing v
    → snapshot (add_checked t v) ≡ last_n v.capacity (snapshot v ++ (t ∷ []))
unfolding snapshot add_checked window
snapshot-add_checked t v h = elim (Bool-cases (ltb v.count v.capacity)) [
  | inl less ↦
      ap (shown v (set_at v.ring v.idx t) ((v.idx + 1) % v.capacity))
        {x = if ltb v.count v.capacity then suc v.count else v.count} {y = suc v.count}
        (ground (arith, less))
      ∙ add_more t v h (ground (arith, less))
      ∙ sym (
          last_n_short v.capacity (snapshot v ++ (t ∷ [])) (
            ground (
              arith,
              less,
              length-append (snapshot v) (t ∷ []),
              length-window v.ring v.capacity ((v.idx + v.capacity - v.count) % v.capacity) 0
                  v.count,
            )))
  | inr full ↦
      let m = v.capacity - 1 in
      let e : v.capacity ≡ suc m = omega (arith, h.has_room) in
      let s = (v.idx + v.capacity - v.capacity) % v.capacity in
      ap (shown v (set_at v.ring v.idx t) ((v.idx + 1) % v.capacity))
        {x = if ltb v.count v.capacity then suc v.count else v.count} {y = v.capacity}
        (ground (arith, full, h.count_fits))
      ∙ ap
          (window (set_at v.ring v.idx t) v.capacity
            (((v.idx + 1) % v.capacity + v.capacity - v.capacity) % v.capacity) 0)
          e
      ∙ add_full t v m h e
      ∙ sym (
          last_n_full v.capacity m (at v.ring ((s + 0) % v.capacity)) t
            (window v.ring v.capacity s 1 m) e (length-window v.ring v.capacity s 1 m))
      ∙ ap (λ k. last_n v.capacity (window v.ring v.capacity s 0 k ++ (t ∷ []))) (sym e)
      ∙ ap (λ c. last_n v.capacity (shown v v.ring v.idx c ++ (t ∷ []))) {x = v.capacity}
          {y = v.count} (ground (arith, full, h.count_fits))
]
