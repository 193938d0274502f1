-- ===== src/Harness/Scheduler/Tests.antt =====
-- The theorems on the scheduler at concrete inputs, and runs of the code.
use seven_db.Common.{ℕ, zero, suc, ◌≡◌, ◌<◌, refl, some, List, [], ◌∷◌, ◌++◌, arith}
use seven_db.Harness.Scheduler.{
  SerialScheduler, new_serial, enqueue, enqueue_all, pop, run_all, run_one, drop, get_elem?,
  compact,
}
use seven_db.Harness.Scheduler.Fifo.{waiting}
use seven_db.Harness.Scheduler.Drain.{drain, world_of, weigh, run_all-drain, run_all_ends}

-- a task is a number that is added to the log; it enqueues the number two below it
abbrev spawn : ℕ → List ℕ
spawn zero = []
spawn (suc zero) = []
spawn (suc (suc n)) = n ∷ []

abbrev run : ℕ → List ℕ → List ℕ × List ℕ
run t log = (log ++ (t ∷ []), spawn t)

abbrev queued : SerialScheduler ℕ
queued = record { queue = 9 ∷ 5 ∷ 2 ∷ []; head = 1 }

run_all_runs : run_all run 6 queued [] ≡ some (new_serial, 5 ∷ 2 ∷ 3 ∷ 0 ∷ 1 ∷ [])
unfolding run_all run_one pop compact drop get_elem? enqueue_all enqueue
run_all_runs = refl

run_all-drain_example : world_of (run_all run 9 queued []) ≡ drain run 9 (waiting queued) []
run_all-drain_example = run_all-drain run 9 queued [] (omega arith)

lighter : (t : ℕ) (log : List ℕ) → weigh run suc (spawn t) < suc t
lighter zero log = omega arith
lighter (suc zero) log = omega arith
lighter (suc (suc n)) log = omega arith

run_all_ends_example : (w : List ℕ) × (world_of (run_all run 99 queued []) ≡ some w)
unfolding drop
run_all_ends_example = run_all_ends run suc lighter 99 queued [] (omega arith) (omega arith)
