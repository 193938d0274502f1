-- ===== src/RaftWal/Samples.antt =====
-- Envelopes and an encoding of which one byte holds a whole field, for the tests.
use seven_db.Common.{
  ℕ, zero, suc, ◌≡◌, refl, Bool, true, Option, none, some, List, [], ◌∷◌, ◌++◌, arith,
}
use seven_db.RaftWal.Frame.{
  Envelope, EntryKind, entry_normal, entry_conf_change, entry_noop, entry_hard_state, EnvelopeProto,
}
use seven_db.RaftWal.Frame.Scan.{Storable}
use seven_db.RaftWal.Writer.{Config}
use seven_db.RaftWal.Runs.{Op, append_op, hard_state_op, flush_op, restart_op}

abbrev code : EntryKind → ℕ
code entry_normal = 0
code entry_conf_change = 1
code entry_noop = 2
code entry_hard_state = 3

abbrev kind_of : ℕ → EntryKind
kind_of zero = entry_normal
kind_of (suc zero) = entry_conf_change
kind_of (suc (suc zero)) = entry_noop
kind_of _ = entry_hard_state

pub kind_of-code : (k : EntryKind) → kind_of (code k) ≡ k
kind_of-code entry_normal = refl
kind_of-code entry_conf_change = refl
kind_of-code entry_noop = refl
kind_of-code entry_hard_state = refl

-- the encoding leaves out the strings
abbrev pub HasNoText : Envelope → Type 0
HasNoText e = (e.namespace ≡ "") × (e.bucket ≡ "")

abbrev fields_of : Envelope → List ℕ
fields_of e =
    e.raft_index
    ∷ e.raft_term
    ∷ code e.kind
    ∷ e.app_crc
    ∷ e.flags
    ∷ e.opcode
    ∷ e.sequence
    ∷ e.app_bytes

abbrev of_fields : List ℕ → Option Envelope
of_fields (index ∷ term ∷ kind ∷ crc ∷ flags ∷ opcode ∷ sequence ∷ bytes) = some (record {
  raft_index = index;
  raft_term = term;
  kind = kind_of kind;
  app_bytes = bytes;
  app_crc = crc;
  flags = flags;
  namespace = "";
  bucket = "";
  opcode = opcode;
  sequence = sequence;
})
of_fields _ = none

abbrev pub proto : EnvelopeProto HasNoText
proto = record {
  marshal = fields_of;
  unmarshal = of_fields;
  unmarshal-marshal = λ e h. rw (kind_of-code e.kind, h.0, h.1) refl;
}

abbrev pub sample : EntryKind → ℕ → List ℕ → Envelope
sample kind index bytes = record {
  raft_index = index;
  raft_term = 1;
  kind = kind;
  app_bytes = bytes;
  app_crc = 5;
  flags = 0;
  namespace = "";
  bucket = "";
  opcode = 0;
  sequence = index;
}

pub sample-Storable : (kind : EntryKind) (index b : ℕ) → Storable proto (sample kind index (b ∷ []))
sample-Storable kind index b = ((refl, refl), refl, omega arith)

-- a small buffer is not possible: it has whole megabytes
abbrev pub config : Bool → Config
config strict = record {
  buf_mb = 1;
  sidecar_flush_every = 2;
  segment_max_bytes = 0;
  strict_sync = strict;
  force_rotate_every = 2;
}

-- an entry, a crash, and an entry that leaves a gap
abbrev pub traffic : List Op
traffic =
    append_op (sample entry_normal 1 (7 ∷ []))
    ∷ restart_op (config true)
    ∷ append_op (sample entry_normal 5 (4 ∷ []))
    ∷ []

abbrev pub calls_only : List Op
calls_only =
    append_op (sample entry_normal 1 (7 ∷ []))
    ∷ flush_op
    ∷ append_op (sample entry_normal 3 (8 ∷ []))
    ∷ hard_state_op (sample entry_hard_state 3 (9 ∷ []))
    ∷ []

-- a callback that keeps what it is given
abbrev pub collect : Envelope → List Envelope → List Envelope × Bool
collect e es = (es ++ (e ∷ []), true)
