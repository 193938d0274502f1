-- ===== src/Raft/Tests.antt =====
-- Runs of a node, and its theorems at concrete entries.
use seven_db.Common.{
  ℕ, ◌≡◌, ◌<◌, refl, sym, ap, subst, Bool, false, true, Option, none, some, List, [], ◌∷◌, arith,
}
use seven_db.Common.Comparable.{string_key, nat_key}
use seven_db.Common.GoMap.{get, put}
use seven_db.Common.Lists.{All}
use seven_db.Emission.Raft.{CommittedRecord, RaftLogRecord, app_command}
use seven_db.Bucket.Frame.{checksum}
use seven_db.RaftWal.Frame.{Envelope, EnvelopeProto, frame}
use seven_db.RaftWal.Frame.Scan.{Storable}
use seven_db.RaftWal.Writer.{
  Config, new_writer, highest, take, passed_on, note_entry, write, flush_buf, current_offset,
}
use seven_db.RaftWal.Append.{append_envelope, append_frame, follow}
use seven_db.RaftWal.Calls.{empty-Logs}
use seven_db.RaftWal.Replay.{last_n}
use seven_db.Raft.Validator.{snapshot, seed_tuples}
use seven_db.Raft.Validator.Seeded.{add_all, empty_ring, snapshot-seeded}
use seven_db.Raft.Types.{Entry, WireRecord, Node, normal, conf_change, applied, conf_envelope}
use seven_db.Raft.Apply.{apply_entry, apply_entries}
use seven_db.Raft.Shadow.{validate_shadow_tail, start_shadow}
use seven_db.Raft.Shadow.Entries.{all_envelopes}
use seven_db.Raft.Shadow.Valid.{started, shadow_segment, validate_shadow_tail-apply_entries}

snapshot-seeded_example :
    snapshot
      (add_all ((3, 30) ∷ (4, 40) ∷ []) (seed_tuples ((1, 10) ∷ (2, 20) ∷ []) (empty_ring 3)))
    ≡ last_n 3 ((1, 10) ∷ (2, 20) ∷ (3, 30) ∷ (4, 40) ∷ [])
snapshot-seeded_example =
    snapshot-seeded 3 ((1, 10) ∷ (2, 20) ∷ []) ((3, 30) ∷ (4, 40) ∷ []) (omega arith)

-- an encoding of envelopes by their index
abbrev ByIndex : Envelope → Type 0
ByIndex e =
    e
    ≡ conf_envelope
        (record { index = e.raft_index; term = 0; entry_type = conf_change; bytes = [] })

abbrev of_index : List ℕ → Option Envelope
of_index (i ∷ []) =
    some (conf_envelope (record { index = i; term = 0; entry_type = conf_change; bytes = [] }))
of_index _ = none

abbrev proto : EnvelopeProto ByIndex
proto = record {
  marshal = λ e. e.raft_index ∷ [];
  unmarshal = of_index;
  unmarshal-marshal = λ e h. ap some (sym h);
}

-- a proposal: its number, and the bucket "b"
abbrev unmarshal : List ℕ → Option WireRecord
unmarshal (n ∷ []) = some (record {
  seq = n;
  log_record = record { bucket_id = "b"; record_type = app_command; payload = n ∷ [] };
})
unmarshal _ = none

abbrev in_time : CommittedRecord ℕ → Bool
in_time cr = true

abbrev ignore : RaftLogRecord ℕ → ℕ → ℕ × Bool
ignore r w = (w, false)

-- a waiter with number 1
abbrev node : Node ℕ
node = record {
  wal_shadow = none;
  wal_validator = none;
  per_bucket_commit = [];
  waiters_seq = (1, 100) ∷ [];
  last_applied_index = 0;
  committed_since_snap = 0;
  sent = [];
  answers = [];
  world = 0;
}

abbrev entry : ℕ → List ℕ → Entry
entry i bytes = record { index = i; term = 0; entry_type = normal; bytes = bytes }

abbrev change : ℕ → Entry
change i = record { index = i; term = 0; entry_type = conf_change; bytes = [] }

abbrev log : List Entry
log = entry 4 (7 ∷ []) ∷ entry 5 (1 ∷ 2 ∷ []) ∷ entry 6 [] ∷ entry 7 (8 ∷ []) ∷ []

-- a record that is not taken in time is dropped, and its waiter is answered
late_reader :
    ((apply_entries proto ignore (λ cr. false) unmarshal (entry 9 (1 ∷ []) ∷ []) node).sent ≡ [])
    × ((apply_entries proto ignore (λ cr. false) unmarshal (entry 9 (1 ∷ []) ∷ []) node).answers
        ≡ (100, applied 1 9) ∷ [])
unfolding apply_entries get
late_reader = (refl, refl)

-- a waiter is answered with the entry of its number, whichever node proposed it
foreign_answer :
    (apply_entries proto ignore in_time unmarshal (entry 9 (1 ∷ []) ∷ []) node).answers
    ≡ (100, applied 1 9) ∷ []
unfolding apply_entries get
foreign_answer = refl

-- an entry that cannot be decoded leaves the last applied index
undecodable : apply_entry proto ignore in_time unmarshal (entry 5 (1 ∷ 2 ∷ [])) node ≡ node
unfolding apply_entry
undecodable = refl

abbrev cfg : Config
cfg = record {
  buf_mb = 1;
  sidecar_flush_every = 5;
  segment_max_bytes = 0;
  strict_sync = true;
  force_rotate_every = 0;
}

abbrev changes : List Entry
changes = change 1 ∷ change 2 ∷ []

changes_is :
    all_envelopes unmarshal changes ≡ conf_envelope (change 1) ∷ conf_envelope (change 2) ∷ []
unfolding all_envelopes
changes_is = refl

changes_segment :
    shadow_segment
      (started proto ignore in_time unmarshal cfg 2 (new_writer cfg [] []) node changes).wal_shadow
    ≡ 0
unfolding apply_entries start_shadow append_envelope new_writer append_frame note_entry write follow
    flush_buf current_offset get put highest take passed_on frame
changes_segment = refl

conf_Storable : (i : ℕ) → Storable proto (conf_envelope (change i))
unfolding checksum
conf_Storable i = (refl, refl, omega arith)

validate_shadow_tail-apply_entries_example :
    (validate_shadow_tail proto
      (started proto ignore in_time unmarshal cfg 2 (new_writer cfg [] []) node changes)).0
    ≡ none
unfolding new_writer highest
validate_shadow_tail-apply_entries_example =
    validate_shadow_tail-apply_entries proto ignore in_time unmarshal cfg 2 (new_writer cfg [] [])
      [] node changes (omega arith) (empty-Logs proto cfg) refl (omega arith)
      (subst (λ n. n < 10) (sym changes_segment) (omega arith))
      (subst (All (Storable proto)) (sym changes_is) (conf_Storable 1, (conf_Storable 2, tt)))
