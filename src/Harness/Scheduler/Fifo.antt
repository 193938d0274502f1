-- ===== src/Harness/Scheduler/Fifo.antt =====
-- The scheduler against a plain queue of tasks.
use seven_db.Common.{
  ℕ, zero, suc, ◌-◌, ◌≡◌, ◌≤◌, ◌<◌, refl, sym, ap, ◌∙◌, Option, none, some, List, [], ◌∷◌, ◌++◌,
  leb, arith, Bool-cases, inl, inr,
}
use mathlib.Core.List.{append-nil, append_assoc}
use seven_db.Common.Lists.{length, length-append}
use seven_db.Harness.Scheduler.{
  drop, get_elem?, SerialScheduler, enqueue, compact, pop, enqueue_all,
}

module _ {T : Type 0} where
  -- the tasks that wait
  abbrev pub waiting : SerialScheduler T → List T
  waiting s = drop s.head s.queue

  -- the head is at most one past the last task
  abbrev pub IsInside : SerialScheduler T → Type 0
  IsInside s = s.head ≤ length s.queue

  -- the front of a queue and the rest
  abbrev pub uncons : List T → List T × Option T
  uncons [] = ([], none)
  uncons (x ∷ xs) = (xs, some x)

  drop-append : (n : ℕ) (xs ys : List T) → n ≤ length xs → drop n (xs ++ ys) ≡ drop n xs ++ ys
  unfolding drop
  drop-append zero xs ys h = refl
  drop-append (suc n) [] ys h = absurd (omega arith)
  drop-append (suc n) (x ∷ xs) ys h = drop-append n xs ys (omega arith)

  length-drop : (n : ℕ) (xs : List T) → length (drop n xs) ≡ length xs - n
  unfolding drop
  length-drop zero xs = omega arith
  length-drop (suc n) [] = omega arith
  length-drop (suc n) (x ∷ xs) = omega (arith, length-drop n xs)

  drop-inside :
      (n : ℕ) (xs : List T) → n < length xs → uncons (drop n xs) ≡ (drop (suc n) xs, get_elem? xs n)
  unfolding drop get_elem?
  drop-inside n [] h = absurd (omega arith)
  drop-inside zero (x ∷ xs) h = refl
  drop-inside (suc n) (x ∷ xs) h = drop-inside n xs (omega arith)

  drop-past : (n : ℕ) (xs : List T) → length xs ≤ n → drop n xs ≡ []
  unfolding drop
  drop-past zero [] h = refl
  drop-past (suc n) [] h = refl
  drop-past zero (x ∷ xs) h = absurd (omega arith)
  drop-past (suc n) (x ∷ xs) h = drop-past n xs (omega arith)

  waiting-compact : (s : SerialScheduler T) → waiting (compact s) ≡ waiting s
  unfolding compact drop
  waiting-compact s = ground arith

  pub compact-IsInside : (s : SerialScheduler T) → IsInside s → IsInside (compact s)
  unfolding compact
  compact-IsInside s h = ground (arith, length-drop s.head s.queue)

  -- Popping takes the front of the tasks that wait, whether or not the slots are compacted.
  pub waiting-pop :
      (s : SerialScheduler T) → IsInside s → (waiting (pop s).0, (pop s).1) ≡ uncons (waiting s)
  unfolding pop drop
  waiting-pop s h = elim (Bool-cases (leb (length s.queue) s.head)) [
    | inl past ↦ rw (past, drop-past s.head s.queue (ground arith)) refl
    | inr inside ↦
        rw
          (
            inside,
            waiting-compact (record s { head = suc s.head }),
            drop-inside s.head s.queue (ground arith),
          )
          refl
  ]

  pub pop-IsInside : (s : SerialScheduler T) → IsInside s → IsInside (pop s).0
  unfolding pop
  pop-IsInside s h = elim (Bool-cases (leb (length s.queue) s.head)) [
    | inl past ↦ rw past (omega arith)
    | inr inside ↦ rw inside (compact-IsInside (record s { head = suc s.head }) (ground arith))
  ]

module _ {T : Type 0} where
  pub enqueue_all-waiting :
      (ts : List T) (s : SerialScheduler T)
      → IsInside s
      → waiting (enqueue_all ts s) ≡ waiting s ++ ts
  unfolding enqueue_all enqueue
  enqueue_all-waiting [] s h = sym (append-nil (waiting s))
  enqueue_all-waiting (t ∷ ts) s h =
      enqueue_all-waiting ts (record s { queue = s.queue ++ (t ∷ []) })
        (omega (arith, length-append s.queue (t ∷ [])))
      ∙ ap (λ q. q ++ ts) (drop-append s.head s.queue (t ∷ []) h)
      ∙ append_assoc (waiting s) (t ∷ []) ts

  pub enqueue_all-IsInside :
      (ts : List T) (s : SerialScheduler T) → IsInside s → IsInside (enqueue_all ts s)
  unfolding enqueue_all enqueue
  enqueue_all-IsInside [] s h = h
  enqueue_all-IsInside (t ∷ ts) s h =
      enqueue_all-IsInside ts (record s { queue = s.queue ++ (t ∷ []) })
        (omega (arith, length-append s.queue (t ∷ [])))
