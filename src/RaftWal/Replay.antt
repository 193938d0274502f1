-- ===== src/RaftWal/Replay.antt =====
-- internal/raftwal/writer.go, what reads all segments: replaying, the tails for the validator and the
-- last hard state. A directory is a map from the numbers of segments to their bytes, and
-- `sort.Strings` orders the names of their files.
use Prim.Native.Char.{code}
use seven_db.Common.{
  ℕ, zero, suc, ◌-◌, String, Bool, true, false, Option, none, some, List, [], ◌∷◌, ◌++◌,
  if◌then◌else◌, nat_beq, ltb,
}
use seven_db.Common.Comparable.{nat_key}
use seven_db.Common.GoMap.{GoMap}
use seven_db.Common.Lists.{length}
use seven_db.Common.Strconv.{format_digits}
use seven_db.RaftWal.Frame.{
  Envelope, EnvelopeProto, WalError, replay_segment, collect_segment_tuples_all,
  collect_segment_crcs_all, hard_state_loop,
}

-- fmt.Sprintf("seg-%d.wal", n)
unfoldable pub segment_name : ℕ → String
segment_name n =
    String.◌∷◌ "s" (String.◌∷◌ "e" (String.◌∷◌ "g" (String.◌∷◌ "-" (format_digits 20 n ".wal"))))

-- a <= b on strings
unfoldable pub string_leb : String → String → Bool
string_leb String.[] b = true
string_leb (String.◌∷◌ c a) String.[] = false
string_leb (String.◌∷◌ c a) (String.◌∷◌ d b) =
    let rest = string_leb a b in
    if ltb (code c) (code d) then true else if ltb (code d) (code c) then false else rest

unfoldable pub insert_segment : ℕ × List ℕ → GoMap ℕ (List ℕ) → GoMap ℕ (List ℕ)
insert_segment (n, bytes) [] = (n, bytes) ∷ []
insert_segment (n, bytes) ((i, b) ∷ files) =
    let rest = insert_segment (n, bytes) files in
    if string_leb (segment_name n) (segment_name i)
    then (n, bytes) ∷ (i, b) ∷ files
    else (i, b) ∷ rest

-- filepath.Glob and sort.Strings
unfoldable pub sorted_segments : GoMap ℕ (List ℕ) → GoMap ℕ (List ℕ)
unfolding insert_segment
sorted_segments [] = []
sorted_segments (f ∷ files) = insert_segment f (sorted_segments files)

module _ {Fits : Envelope → Type 0} (proto : EnvelopeProto Fits) where
  unfoldable pub replay_files :
      {S : Type 0} → (Envelope → S → S × Bool) → GoMap ℕ (List ℕ) → S → S × Option WalError
  replay_files cb [] s = (s, none)
  replay_files cb ((n, bytes) ∷ files) s = elim (replay_segment proto cb bytes s).1 [
    | none ↦ replay_files cb files (replay_segment proto cb bytes s).0
    | some err ↦ ((replay_segment proto cb bytes s).0, some err)
  ]

  -- Replay
  unfoldable pub replay :
      {S : Type 0} → (Envelope → S → S × Bool) → GoMap ℕ (List ℕ) → S → S × Option WalError
  unfolding replay_files sorted_segments
  replay cb disk s = replay_files cb (sorted_segments disk) s

  -- what the tails collect from all files, or the error of the first that has one
  unfoldable pub collect_files :
      {A : Type 0}
      → (List ℕ → List A × Option WalError)
      → GoMap ℕ (List ℕ)
      → List A
      → List A × Option WalError
  collect_files f [] all = (all, none)
  collect_files f ((n, bytes) ∷ files) all = elim (f bytes).1 [
    | none ↦ collect_files f files (all ++ (f bytes).0)
    | some err ↦ ([], some err)
  ]

-- all[len(all)-limit:] where it is longer
unfoldable pub last_n : {A : Type 0} → ℕ → List A → List A
last_n limit all = seven_db.Common.Lists.drop (length all - limit) all

module _ {Fits : Envelope → Type 0} (proto : EnvelopeProto Fits) where
  unfoldable pub tail_logical_crcs : GoMap ℕ (List ℕ) → ℕ → List ℕ × Option WalError
  unfolding last_n sorted_segments
  tail_logical_crcs disk limit =
      let all = collect_files proto (collect_segment_crcs_all proto) (sorted_segments disk) [] in
      if nat_beq limit 0 then ([], none) else (last_n limit all.0, all.1)

  unfoldable pub tail_logical_tuples : GoMap ℕ (List ℕ) → ℕ → List (ℕ × ℕ) × Option WalError
  unfolding last_n sorted_segments
  tail_logical_tuples disk limit =
      let all = collect_files proto (collect_segment_tuples_all proto) (sorted_segments disk) [] in
      if nat_beq limit 0 then ([], none) else (last_n limit all.0, all.1)

  unfoldable pub hard_state_files : GoMap ℕ (List ℕ) → List ℕ → List ℕ × Option WalError
  hard_state_files [] hs = (hs, none)
  hard_state_files ((n, bytes) ∷ files) hs =
      elim (hard_state_loop proto (suc (length bytes)) hs bytes).1 [
        | none ↦ hard_state_files files (hard_state_loop proto (suc (length bytes)) hs bytes).0
        | some err ↦ ([], some err)
      ]

  -- ReplayLastHardState: a hard state without bytes is not told from none
  unfoldable pub replay_last_hard_state : GoMap ℕ (List ℕ) → List ℕ × Option WalError
  unfolding hard_state_files sorted_segments
  replay_last_hard_state disk = hard_state_files (sorted_segments disk) []
