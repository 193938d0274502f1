-- ===== src/Bucket/Runtime/Tests.antt =====
-- The loop of a bucket at concrete steps.
use seven_db.Common.{ℕ, ◌≡◌, some, List, [], ◌∷◌, arith}
use seven_db.Common.Comparable.{nat_key}
use seven_db.Bucket.Samples.{json, sample}
use seven_db.Bucket.FileLog.{append_call, restart, new_file_bucket_log}
use seven_db.Bucket.Runtime.{Step, round, other, new_bucket, run_round, steps}
use seven_db.Bucket.Runtime.Replay.{run_applies, log_steps}

abbrev busy : List (Step ℕ)
busy =
    other (append_call 5 (some (sample 1 (7 ∷ []))))
    ∷ round
    ∷ other (append_call 6 (some (sample 2 (8 ∷ []))))
    ∷ other restart
    ∷ round
    ∷ other (append_call 7 (some (sample 1 (9 ∷ []))))
    ∷ []

run_applies_example :
    (run_round json
      (steps json busy (new_bucket 1) (new_file_bucket_log [])).0
      (steps json busy (new_bucket 1) (new_file_bucket_log [])).1).0.applied
    ≡ log_steps json 1 busy []
run_applies_example = run_applies json busy 1 (tt, (tt, (tt, (tt, (tt, (tt, tt)))))) (omega arith)
