-- ===== src/RaftWal/Writer.antt =====
-- internal/raftwal/writer.go, the writer. The disk is a map from the numbers of segments to the bytes
-- of their files, what a process that ends leaves behind; a sidecar is the list of its entries. Every
-- call of the file system succeeds, and the hooks of tests are nil.
use seven_db.Common.{
  ℕ, zero, suc, ◌+◌, ◌*◌, ◌%◌, ◌^◌, Bool, false, ◌||◌, List, [], ◌∷◌, ◌++◌, if◌then◌else◌, nat_beq,
  ltb, leb,
}
use seven_db.Common.Comparable.{nat_key}
use seven_db.Common.GoMap.{GoMap, get, put, or_zero}
use seven_db.Common.Lists.{length, drop}

pub record EntryMeta : Type 0 where
  pub index : ℕ
  pub offset : ℕ
  pub meta_length : ℕ

pub record Config : Type 0 where
  pub buf_mb : ℕ
  pub sidecar_flush_every : ℕ
  pub segment_max_bytes : ℕ
  pub strict_sync : Bool
  pub force_rotate_every : ℕ

pub record Writer : Type 0 where
  -- as NewWriter completes it
  pub config : Config
  pub disk : GoMap ℕ (List ℕ)
  pub sidecars : GoMap ℕ (List EntryMeta)
  pub seg_idx : ℕ
  -- the buffered bytes
  pub buf : List ℕ
  pub is_closed : Bool
  pub last_index : ℕ
  pub entries : List EntryMeta
  pub entries_since_flush : ℕ
  pub append_count : ℕ

-- the greatest number of a segment, or 0
unfoldable pub highest : ℕ → GoMap ℕ (List ℕ) → ℕ
highest n [] = n
highest n ((i, bytes) ∷ disk) = highest (if ltb n i then i else n) disk

-- the bytes of a segment's file
abbrev pub file_of : GoMap ℕ (List ℕ) → ℕ → List ℕ
file_of disk n = or_zero [] (get disk n)

-- what NewWriter makes of a configuration, segmentMaxBytesOrDefault included; a buffer of `buf_mb` MB
unfoldable pub complete : Config → Config
complete cfg = record {
  buf_mb = if nat_beq cfg.buf_mb 0 then 1 else cfg.buf_mb;
  sidecar_flush_every = if nat_beq cfg.sidecar_flush_every 0 then 256 else cfg.sidecar_flush_every;
  segment_max_bytes = if ltb 0 cfg.segment_max_bytes then cfg.segment_max_bytes else 67108864;
  strict_sync = cfg.strict_sync;
  force_rotate_every = cfg.force_rotate_every;
}

-- NewWriter with openLastOrCreate
unfoldable pub new_writer : Config → GoMap ℕ (List ℕ) → GoMap ℕ (List EntryMeta) → Writer
unfolding complete
new_writer cfg disk sidecars = record {
  config = complete cfg;
  disk = put disk (highest 0 disk) (file_of disk (highest 0 disk));
  sidecars = sidecars;
  seg_idx = highest 0 disk;
  buf = [];
  is_closed = false;
  last_index = 0;
  entries = [];
  entries_since_flush = 0;
  append_count = 0;
}

-- the first `n` bytes
unfoldable pub take : ℕ → List ℕ → List ℕ
take zero bs = []
take (suc n) [] = []
take (suc n) (b ∷ bs) = b ∷ take n bs

-- bufio.Writer.Write with a buffer of `size` bytes that holds `buffered`: how many bytes of the buffered
-- and the new ones it passes on
unfoldable pub passed_on : ℕ → ℕ → ℕ → ℕ
passed_on size buffered added =
    if leb (buffered + added) size
    then 0
    else if nat_beq buffered 0 || ltb (size + size) (buffered + added)
    then buffered + added
    else size

-- the active segment's file with bytes added
unfoldable pub extend_file : List ℕ → Writer → GoMap ℕ (List ℕ)
extend_file bytes w = put w.disk w.seg_idx (file_of w.disk w.seg_idx ++ bytes)

unfoldable pub write : List ℕ → Writer → Writer
unfolding extend_file
write p w =
    let n = passed_on (w.config.buf_mb * 1048576) (length w.buf) (length p) in
    record {
      config = w.config;
      disk = extend_file (take n (w.buf ++ p)) w;
      sidecars = w.sidecars;
      seg_idx = w.seg_idx;
      buf = drop n (w.buf ++ p);
      is_closed = w.is_closed;
      last_index = w.last_index;
      entries = w.entries;
      entries_since_flush = w.entries_since_flush;
      append_count = w.append_count;
    }

-- w.buf.Flush()
unfoldable pub flush_buf : Writer → Writer
unfolding extend_file
flush_buf w = record {
  config = w.config;
  disk = extend_file w.buf w;
  sidecars = w.sidecars;
  seg_idx = w.seg_idx;
  buf = [];
  is_closed = w.is_closed;
  last_index = w.last_index;
  entries = w.entries;
  entries_since_flush = w.entries_since_flush;
  append_count = w.append_count;
}

-- currentOffsetUnsafe
unfoldable pub current_offset : Writer → ℕ
current_offset w = length (file_of w.disk w.seg_idx) + length w.buf

unfoldable pub write_sidecar : Writer → Writer
write_sidecar w = elim w.entries [
  | [] ↦ w
  | e ∷ es ↦ record {
    config = w.config;
    disk = w.disk;
    sidecars = put w.sidecars w.seg_idx (e ∷ es);
    seg_idx = w.seg_idx;
    buf = w.buf;
    is_closed = w.is_closed;
    last_index = w.last_index;
    entries = e ∷ es;
    entries_since_flush = 0;
    append_count = w.append_count;
  }
]

-- rotateLocked from the opening of the next segment on
unfoldable pub open_next : Writer → Writer
open_next w = record {
  config = w.config;
  disk = put w.disk (suc w.seg_idx) (file_of w.disk (suc w.seg_idx));
  sidecars = w.sidecars;
  seg_idx = suc w.seg_idx;
  buf = [];
  is_closed = w.is_closed;
  last_index = w.last_index;
  entries = [];
  entries_since_flush = 0;
  append_count = w.append_count;
}

unfoldable pub rotate : Writer → Writer
unfolding flush_buf write_sidecar open_next
rotate w = open_next (write_sidecar (flush_buf w))

-- rotateForConflictLocked
unfoldable pub rotate_for_conflict : Writer → Writer
rotate_for_conflict w = if nat_beq w.last_index 0 then w else rotate w

-- w.entries = append(w.entries, ...); w.entriesSinceFlush++
unfoldable pub note_entry : ℕ → ℕ → ℕ → Writer → Writer
note_entry index offset frame_len w = record {
  config = w.config;
  disk = w.disk;
  sidecars = w.sidecars;
  seg_idx = w.seg_idx;
  buf = w.buf;
  is_closed = w.is_closed;
  last_index = w.last_index;
  entries =
      w.entries
      ++ (record { index = index; offset = offset % 2 ^ 32; meta_length = frame_len % 2 ^ 32 }
          ∷ []);
  entries_since_flush = suc w.entries_since_flush;
  append_count = w.append_count;
}

unfoldable pub set_last_index : ℕ → Writer → Writer
set_last_index index w = record {
  config = w.config;
  disk = w.disk;
  sidecars = w.sidecars;
  seg_idx = w.seg_idx;
  buf = w.buf;
  is_closed = w.is_closed;
  last_index = index;
  entries = w.entries;
  entries_since_flush = w.entries_since_flush;
  append_count = w.append_count;
}

unfoldable pub count_append : Writer → Writer
count_append w = record {
  config = w.config;
  disk = w.disk;
  sidecars = w.sidecars;
  seg_idx = w.seg_idx;
  buf = w.buf;
  is_closed = w.is_closed;
  last_index = w.last_index;
  entries = w.entries;
  entries_since_flush = w.entries_since_flush;
  append_count = suc w.append_count;
}
