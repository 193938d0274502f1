-- ===== src/Harness/Scheduler/Space.antt =====
-- How many slots a scheduler keeps before its head.
use seven_db.Common.{◌*◌, ◌≤◌, ◌⊎◌, Option, none, some, [], ◌∷◌, arith}
use seven_db.Common.Lists.{length, length-append}
use seven_db.Harness.Scheduler.{SerialScheduler, enqueue, compact, pop}

module _ {T : Type 0} where
  -- at most 64 slots, or as many as tasks that wait, lie before the head
  abbrev pub IsTight : SerialScheduler T → Type 0
  IsTight s = (s.head ≤ 64) ⊎ (s.head * 2 ≤ length s.queue)

  pub enqueue-IsTight : (t : Option T) (s : SerialScheduler T) → IsTight s → IsTight (enqueue t s)
  unfolding enqueue
  enqueue-IsTight none s h = h
  enqueue-IsTight (some t) s h = ground (arith, length-append s.queue (t ∷ []))

  -- Whatever the queue was before, after a pop at most 64 slots, or as many as half of the queue's,
  -- lie before the head.
  pub pop-IsTight : (s : SerialScheduler T) → IsTight (pop s).0
  unfolding pop compact
  pop-IsTight s = ground arith
