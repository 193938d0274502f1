-- ===== src/Harness/Scheduler.antt =====
-- internal/harness/scheduler/scheduler.go: `SerialScheduler`. A task is a value of a parameter type;
-- running it changes the world `W` and enqueues tasks, which `run` tells in their order. `RunAll` is
-- a loop that need not end: it is recursion on fuel here, and `none` if the fuel is used up.
pub mod Fifo
pub mod Drain
pub mod Space
mod Tests
use seven_db.Common.{
  ℕ, zero, suc, ◌+◌, ◌-◌, ◌*◌, Bool, true, false, Option, none, some, List, [], ◌∷◌, ◌++◌, ltb, leb,
  if◌then◌else◌, ◌&&◌,
}
use seven_db.Common.Lists.{length}

module _ {ℓ} {A : Type ℓ} where
  -- s.queue[i:]
  unfoldable pub drop : ℕ → List A → List A
  drop zero xs = xs
  drop (suc n) [] = []
  drop (suc n) (x ∷ xs) = drop n xs

  -- s.queue[i], where it is in range
  unfoldable pub get_elem? : List A → ℕ → Option A
  get_elem? [] i = none
  get_elem? (x ∷ xs) zero = some x
  get_elem? (x ∷ xs) (suc i) = get_elem? xs i

pub record SerialScheduler (T : Type 0) : Type 0 where
  pub queue : List T
  pub head : ℕ

-- NewSerial
abbrev pub new_serial : {T : Type 0} → SerialScheduler T
new_serial = record { queue = []; head = 0 }

-- Enqueue, which ignores a nil task
unfoldable pub enqueue : {T : Type 0} → Option T → SerialScheduler T → SerialScheduler T
enqueue none s = s
enqueue (some t) s = record s { queue = s.queue ++ (t ∷ []) }

-- the slots before the head are given up when there are more of them than of the others
unfoldable pub compact : {T : Type 0} → SerialScheduler T → SerialScheduler T
compact s =
    if ltb 64 s.head && ltb (length s.queue) (s.head * 2)
    then record { queue = drop s.head s.queue; head = 0 }
    else s

-- pop
unfoldable pub pop : {T : Type 0} → SerialScheduler T → SerialScheduler T × Option T
pop s =
    if leb (length s.queue) s.head
    then (new_serial, none)
    else (compact (record s { head = suc s.head }), get_elem? s.queue s.head)

-- Len, which stops at 0 as the code does
unfoldable pub len : {T : Type 0} → SerialScheduler T → ℕ
len s = length s.queue - s.head

unfoldable pub enqueue_all : {T : Type 0} → List T → SerialScheduler T → SerialScheduler T
enqueue_all [] s = s
enqueue_all (t ∷ ts) s = enqueue_all ts (enqueue (some t) s)

module _ {T W : Type 0} (run : T → W → W × List T) where
  -- RunOne
  unfoldable pub run_one : SerialScheduler T → W → SerialScheduler T × W × Bool
  run_one s w = elim ((pop s).1) [
    | none ↦ ((pop s).0, w, false)
    | some t ↦ let (w', spawned) = run t w in (enqueue_all spawned (pop s).0, w', true)
  ]

  -- RunAll
  unfoldable pub run_all : ℕ → SerialScheduler T → W → Option (SerialScheduler T × W)
  run_all zero s w = none
  run_all (suc fuel) s w =
      let (s', w', ran) = run_one s w in
      let rest = run_all fuel s' w' in if ran then rest else some (s', w')
