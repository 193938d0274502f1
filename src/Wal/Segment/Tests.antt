-- ===== src/Wal/Segment/Tests.antt =====
-- The theorem on a segment at a concrete one.
use seven_db.Common.{◌≡◌, refl, true, [], ◌∷◌, ◌++◌}
use seven_db.Bucket.Frame.{read_full}
use seven_db.Wal.Unified.{is_uwal, sized, encode_uwal, decode_uwal}
use seven_db.Wal.Segment.{normal_element, note_index, last_index_of_segment}
use seven_db.Wal.Segment.Last.{segment_of, last_index_of_segment-segment_of}
use seven_db.Wal.Samples.{
  plain, numbered, first-Writable, second-Writable, third-Writable, torn, torn-append, some_cut,
}

last_index_of_segment-segment_of_example :
    last_index_of_segment plain (segment_of plain (numbered 1 ∷ numbered 2 ∷ []) ++ torn) ≡ 42
last_index_of_segment-segment_of_example =
    last_index_of_segment-segment_of plain (numbered 1 ∷ numbered 2 ∷ []) (numbered 3) torn
      (1 ∷ encode_uwal (numbered 3).entry) (first-Writable, (second-Writable, tt)) third-Writable
      torn-append some_cut

-- the preamble of a manifest does not count, and a payload in another format counts by its number
note_preamble :
    note_index 5 (
      normal_element 8 0
        (record { kind = 2; index = 0; term = 0; sub_seq = 0; cmd = []; raft_data = [] }))
    ≡ 5
unfolding note_index normal_element encode_uwal sized is_uwal decode_uwal read_full
note_preamble = refl

note_other :
    note_index 5 (record { lsn = 8; timestamp = 0; is_command = true; payload = 1 ∷ [] }) ≡ 8
unfolding note_index is_uwal
note_other = refl
