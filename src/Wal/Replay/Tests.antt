-- ===== src/Wal/Replay/Tests.antt =====
-- The theorems on replay at concrete segments.
use seven_db.Common.{ℕ, ◌≡◌, refl, Bool, true, Option, none, some, List, [], ◌∷◌, ◌++◌, arith}
use seven_db.Wal.Unified.{sized, encode_uwal}
use seven_db.Wal.Segment.{normal_element}
use seven_db.Wal.Segment.Last.{segment_of}
use seven_db.Wal.Replay.{ReplayItem, bad_data, replay_items}
use seven_db.Wal.Replay.Items.{Logged, appended_of, Readable, all_segments, feed}
use seven_db.Wal.Replay.Segments.{replay_items-written, replay_items_torn}
use seven_db.Wal.Samples.{
  plain, numbered, first-Writable, second-Writable, third-Writable, torn, torn-append, some_cut,
}

-- commands as their bytes
abbrev raw : List ℕ → Option (List ℕ)
raw bs = some bs

-- a callback that keeps the indices
abbrev keep_index : ReplayItem (List ℕ) → List ℕ → List ℕ × Bool
keep_index it kept = (it.index ∷ kept, true)

abbrev logged : ℕ → Logged (List ℕ)
logged n = record { appended = numbered n; command = (numbered n).entry.cmd }

first-Readable : Readable raw plain (logged 1)
unfolding normal_element encode_uwal sized
first-Readable = (first-Writable, refl, refl, refl)

second-Readable : Readable raw plain (logged 2)
unfolding normal_element encode_uwal sized
second-Readable = (second-Writable, refl, refl, refl)

third-Readable : Readable raw plain (logged 3)
unfolding normal_element encode_uwal sized
third-Readable = (third-Writable, refl, refl, refl)

replay_items-written_example :
    replay_items raw plain keep_index
      (all_segments raw plain ((logged 1 ∷ logged 2 ∷ []) ∷ (logged 3 ∷ []) ∷ []))
      []
    ≡ (43 ∷ 42 ∷ 41 ∷ [], none)
unfolding feed
replay_items-written_example =
    replay_items-written raw plain keep_index ((logged 1 ∷ logged 2 ∷ []) ∷ (logged 3 ∷ []) ∷ []) []
      ((first-Readable, (second-Readable, tt)), ((third-Readable, tt), tt))

replay_items_torn_example :
    replay_items raw plain keep_index
      (all_segments raw plain ((logged 1 ∷ []) ∷ [])
        ++ ((segment_of plain (appended_of (logged 2 ∷ [])) ++ torn) ∷ []))
      []
    ≡ (42 ∷ 41 ∷ [], some bad_data)
unfolding feed
replay_items_torn_example =
    replay_items_torn raw plain keep_index ((logged 1 ∷ []) ∷ []) (logged 2 ∷ []) (logged 3) torn
      (1 ∷ encode_uwal (numbered 3).entry) [] ((first-Readable, tt), tt) (second-Readable, tt)
      third-Readable torn-append (omega arith) some_cut
