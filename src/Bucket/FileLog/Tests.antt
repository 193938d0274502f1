-- ===== src/Bucket/FileLog/Tests.antt =====
-- Runs of the log, and its theorems at concrete calls.
use seven_db.Common.{
  ℕ, ◌≡◌, ◌≤◌, refl, ap, subst, false, Bool, none, some, inr, Option, List, [], ◌∷◌, ◌++◌, nat_beq,
  arith,
}
use seven_db.Common.Comparable.{nat_key}
use seven_db.Common.GoMap.{get}
use seven_db.Common.Lists.{length, drop}
use seven_db.Bucket.Samples.{json, sample, traffic}
use seven_db.Bucket.Frame.{WalEntry, frame, checksum, read_full}
use seven_db.Bucket.Frame.Scan.{frames, frame_of, Storable}
use seven_db.Bucket.Frame.Tear.{IsMixed}
use seven_db.Bucket.FileLog.{
  new_file_bucket_log, calls, append, read, FileBucketLog, append_call, stamp, open_bucket,
}
use seven_db.Bucket.FileLog.Content.{Holds, next_entry}
use seven_db.Bucket.FileLog.Calls.{read-calls, calls-Holds, new-Holds, log_calls, log_call, extend}
use seven_db.Bucket.FileLog.Torn.{read-crashed, append_lost, crashed, torn, late_entry}

abbrev empty_log : FileBucketLog ℕ
empty_log = new_file_bucket_log []

log_runs :
    log_calls json 1 traffic []
    ≡ stamp 5 1 0 0 (sample 1 (7 ∷ [])) ∷ stamp 7 2 0 16 (sample 1 (9 ∷ [])) ∷ []
unfolding log_calls log_call extend frames frame checksum stamp
log_runs = refl

read-calls_example :
    (read json 1 2 (calls json traffic empty_log)).0 ≡ drop 1 (log_calls json 1 traffic [])
read-calls_example =
    read-calls json traffic 1 1 (tt, (tt, (tt, (tt, (tt, (tt, tt)))))) (omega arith)

-- the log with one entry of bucket 1
abbrev one : List (WalEntry ℕ)
one = next_entry json 5 (sample 1 (7 ∷ [])) [] ∷ []

abbrev one_log : FileBucketLog ℕ
one_log = calls json (append_call 5 (some (sample 1 (7 ∷ []))) ∷ []) empty_log

one-Holds : Holds json one_log 1 one
unfolding log_calls log_call extend stamp
one-Holds =
    calls-Holds json (append_call 5 (some (sample 1 (7 ∷ []))) ∷ []) empty_log 1 [] (tt, tt)
      (omega arith) (new-Holds json 1)

-- the entry whose frame is torn, the part that is left of it and the part that is not
abbrev late : WalEntry ℕ
late = stamp 8 2 0 16 (sample 1 (3 ∷ 4 ∷ []))

abbrev left : List ℕ
left = 16 ∷ 8 ∷ 1 ∷ []

abbrev cut : List ℕ
cut = 1 ∷ 0 ∷ 2 ∷ 0 ∷ 3 ∷ 4 ∷ []

left-cut : left ++ cut ≡ json.marshal late
unfolding stamp
left-cut = refl

torn-cut : torn (json.marshal late) left ++ cut ≡ frame_of json late
unfolding frame
torn-cut = ap (torn (json.marshal late)) left-cut

late-Storable : Storable json late
unfolding stamp
late-Storable = (tt, tt, omega arith)

read-crashed_example :
    ((read json 1 1 (crashed json 1 (torn (json.marshal late) left) one_log)).0 ≡ one)
    × (get
          (open_bucket json 1 (crashed json 1 (torn (json.marshal late) left) one_log)).commit_idx
          1
        ≡ some 1)
read-crashed_example =
    read-crashed json one_log 1 0 one late (torn (json.marshal late) left) cut one-Holds
      late-Storable torn-cut (omega arith)

-- the payload that is read has the checksum of `p`
abbrev matches : List ℕ → Option (List ℕ × List ℕ) → Bool
matches p none = false
matches p (some (buf, rest)) = nat_beq (checksum buf) (checksum p)

IsMixed-computed : (p bs : List ℕ) → matches p (read_full (length p) bs) ≡ false → IsMixed p bs
IsMixed-computed p bs h buf rest full = subst (λ o. matches p o ≡ false) full h

-- what is appended after the crash
abbrev next : WalEntry ℕ
next = sample 1 (5 ∷ [])

late-IsMixed :
    IsMixed
      (json.marshal late)
      (left ++ frame_of json (late_entry json 9 next one (torn (json.marshal late) left)))
unfolding read_full frame checksum stamp frames
late-IsMixed =
    IsMixed-computed (json.marshal late)
      (left ++ frame_of json (late_entry json 9 next one (torn (json.marshal late) left))) refl

next_fits :
    length (json.marshal (late_entry json 9 next one (torn (json.marshal late) left))) ≤ 2147483647
unfolding stamp
next_fits = omega arith

append_lost_example :
    ((append json 9 (some next) (crashed json 1 (torn (json.marshal late) left) one_log)).0
      ≡ inr (2, length (frames json one ++ torn (json.marshal late) left)))
    × ((read json 1 1
          (append json 9 (some next) (crashed json 1 (torn (json.marshal late) left) one_log)).1).0
        ≡ one)
append_lost_example =
    append_lost json one_log 0 one late next 9 left cut one-Holds late-Storable left-cut
      (omega arith) (omega arith) next_fits late-IsMixed
