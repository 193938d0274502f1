-- ===== src/Harness/Scheduler/Drain.antt =====
-- RunAll against a machine on a plain queue, and when it ends.
use seven_db.Common.{
  ℕ, zero, suc, ◌+◌, ◌≡◌, ◌<◌, refl, ap, ◌∙◌, true, false, Option, none, some, List, [], ◌∷◌, ◌++◌,
  arith,
}
use seven_db.Harness.Scheduler.{SerialScheduler, pop, enqueue_all, run_one, run_all}
use seven_db.Harness.Scheduler.Fifo.{
  waiting, IsInside, uncons, waiting-pop, pop-IsInside, enqueue_all-waiting, enqueue_all-IsInside,
}

abbrev pub world_of : {T W : Type 0} → Option (SerialScheduler T × W) → Option W
world_of none = none
world_of (some (s, w)) = some w

module _ {T W : Type 0} (run : T → W → W × List T) where
  run_one-empty :
      (s : SerialScheduler T) (w : W) → (pop s).1 ≡ none → run_one run s w ≡ ((pop s).0, w, false)
  unfolding run_one
  run_one-empty s w e = rw (e, run_one) refl

  run_one-task :
      (s : SerialScheduler T) (w : W) (t : T)
      → (pop s).1 ≡ some t
      → run_one run s w ≡ (enqueue_all (run t w).1 (pop s).0, (run t w).0, true)
  unfolding run_one
  run_one-task s w t e = rw (e, run_one) refl

  -- the tasks of a queue in their order, those that they enqueue after the others
  unfoldable pub drain : ℕ → List T → W → Option W
  drain zero q w = none
  drain (suc fuel) [] w = some w
  drain (suc fuel) (t ∷ q) w = let (w', spawned) = run t w in drain fuel (q ++ spawned) w'

  -- RunAll runs the tasks in the order of a plain queue: with every fuel it gives the world that the
  -- machine on the list of the tasks that wait gives.
  pub run_all-drain :
      (fuel : ℕ) (s : SerialScheduler T) (w : W)
      → IsInside s
      → world_of (run_all run fuel s w) ≡ drain fuel (waiting s) w
  unfolding run_all drain
  run_all-drain zero s w h = refl
  run_all-drain (suc fuel) s w h =
      go (waiting s) (waiting-pop s h) (λ s' w' h'. run_all-drain fuel s' w' h')
    where
      go :
          (q : List T)
          → (waiting (pop s).0, (pop s).1) ≡ uncons q
          → ((s' : SerialScheduler T) (w' : W)
              → IsInside s'
              → world_of (run_all run fuel s' w') ≡ drain fuel (waiting s') w')
          → world_of (run_all run (suc fuel) s w) ≡ drain (suc fuel) q w
      go [] e ih = rw (run_one-empty s w (ap (λ p. p.1) e), world_of) refl
      go (t ∷ q) e ih =
          rw (run_one-task s w t (ap (λ p. p.1) e), world_of)
            (ih (enqueue_all (run t w).1 (pop s).0) (run t w).0
                (enqueue_all-IsInside (run t w).1 (pop s).0 (pop-IsInside s h))
              ∙ ap (λ p. drain fuel p (run t w).0)
                  (enqueue_all-waiting (run t w).1 (pop s).0 (pop-IsInside s h)
                    ∙ ap (λ p. p.0 ++ (run t w).1) e))

  module _ (weight : T → ℕ) where
    abbrev pub weigh : List T → ℕ
    weigh [] = 0
    weigh (t ∷ ts) = weight t + weigh ts

    weigh-append : (ts us : List T) → weigh (ts ++ us) ≡ weigh ts + weigh us
    weigh-append [] us = omega arith
    weigh-append (t ∷ ts) us = omega (arith, weigh-append ts us)

    drain_ends :
        ((t : T) (w : W) → weigh (run t w).1 < weight t)
        → (fuel : ℕ) (q : List T) (w : W) → weigh q < fuel
        → (w' : W) × (drain fuel q w ≡ some w')
    unfolding drain
    drain_ends lighter zero q w h = absurd (omega arith)
    drain_ends lighter (suc fuel) [] w h = (w, refl)
    drain_ends lighter (suc fuel) (t ∷ q) w h =
        drain_ends lighter fuel (q ++ (run t w).1) (run t w).0
          (omega (arith, lighter t w, weigh-append q (run t w).1))

    -- RunAll ends if each task weighs more than all that it enqueues: a fuel above the weight of the
    -- tasks that wait is enough.
    pub run_all_ends :
        ((t : T) (w : W) → weigh (run t w).1 < weight t)
        → (fuel : ℕ) (s : SerialScheduler T) (w : W) → IsInside s
        → weigh (waiting s) < fuel
        → (w' : W) × (world_of (run_all run fuel s w) ≡ some w')
    run_all_ends lighter fuel s w h enough =
        let (w', e) = drain_ends lighter fuel (waiting s) w enough in
        (w', run_all-drain fuel s w h ∙ e)
