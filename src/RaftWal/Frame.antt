-- ===== src/RaftWal/Frame.antt =====
-- internal/raftwal/raftwal.proto and the loops of internal/raftwal/writer.go that read a segment:
-- frames of a checksum and a length of 4 bytes each, then the envelope. The encoding of protobuf is a
-- parameter.
pub mod Scan
pub mod Folds
use seven_db.Common.{
  ℕ, zero, suc, ◌≡◌, String, Bool, true, false, Option, none, some, List, [], ◌∷◌, ◌++◌,
  if◌then◌else◌, nat_beq, ltb,
}
use seven_db.Common.Lists.{length}
use seven_db.Bucket.Frame.{checksum, put_u32, u32, read_full}

pub data EntryKind : Type 0 where
  entry_normal entry_conf_change entry_noop entry_hard_state : EntryKind

pub record Envelope : Type 0 where
  pub raft_index : ℕ
  pub raft_term : ℕ
  pub kind : EntryKind
  pub app_bytes : List ℕ
  pub app_crc : ℕ
  pub flags : ℕ
  pub namespace : String
  pub bucket : String
  pub opcode : ℕ
  pub sequence : ℕ

-- proto.Marshal and proto.Unmarshal on envelopes: what protobuf can represent (numbers of the width of
-- their field, strings in UTF-8) is read back
pub record EnvelopeProto (Fits : Envelope → Type 0) : Type 0 where
  pub marshal : Envelope → List ℕ
  pub unmarshal : List ℕ → Option Envelope
  pub unmarshal-marshal : (e : Envelope) → Fits e → unmarshal (marshal e) ≡ some e

pub data WalError : Type 0 where
  short_payload crc_mismatch bad_envelope callback_failed : WalError

-- one turn of a loop over a segment
pub data Turn : Type 0 where
  end_of_file : Turn
  fails : WalError → Turn
  skip : List ℕ → Turn
  found : Envelope → List ℕ → Turn

-- the frame of AppendEnvelope and AppendHardState
unfoldable pub frame : List ℕ → List ℕ
frame payload = put_u32 (checksum payload) (put_u32 (length payload) payload)

module _ {Fits : Envelope → Type 0} (proto : EnvelopeProto Fits) where
  unfoldable pub decode : Option Envelope → List ℕ → Turn
  decode none rest = fails bad_envelope
  decode (some e) rest = found e rest

  unfoldable pub with_payload : ℕ → Option (List ℕ × List ℕ) → Turn
  unfolding decode
  with_payload crc none = fails short_payload
  with_payload crc (some (payload, rest)) =
      if nat_beq (checksum payload) crc
      then decode (proto.unmarshal payload) rest
      else fails crc_mismatch

  unfoldable pub with_header : ℕ → ℕ → List ℕ → Turn
  unfolding with_payload
  with_header crc sz rest = if nat_beq sz 0 then skip rest else with_payload crc (read_full sz rest)

  unfoldable pub next_envelope : List ℕ → Turn
  unfolding with_header
  next_envelope (a ∷ b ∷ c ∷ d ∷ e ∷ f ∷ g ∷ h ∷ rest) =
      with_header (u32 a b c d) (u32 e f g h) rest
  next_envelope _ = end_of_file

-- what the loops over normal entries keep of one, before what the later ones give
unfoldable pub keep_normal : {A : Type 0} → (Envelope → A) → Envelope → List A → List A
keep_normal f env rest = elim env.kind [ entry_normal ↦ f env ∷ rest | _ ↦ rest ]

-- if env.Kind == EntryKind_ENTRY_HARDSTATE { hs = env.AppBytes }
unfoldable pub hard_state_or : EntryKind → List ℕ → List ℕ → List ℕ
hard_state_or entry_hard_state bytes hs = bytes
hard_state_or _ bytes hs = hs

-- In every loop a turn that goes on takes at least the 8 bytes of a header, so the number of bytes is
-- fuel enough.
module _ {Fits : Envelope → Type 0} (proto : EnvelopeProto Fits) where
  -- the loop of maxIndexInSegment
  unfoldable pub max_index_loop : ℕ → ℕ → List ℕ → ℕ × Option WalError
  max_index_loop zero max bs = (max, none)
  max_index_loop (suc fuel) max bs = elim (next_envelope proto bs) [
    | end_of_file ↦ (max, none)
    | fails err ↦ (max, some err)
    | skip rest ↦ max_index_loop fuel max rest
    | found env rest ↦
        max_index_loop fuel (if ltb max env.raft_index then env.raft_index else max) rest
  ]

  unfoldable pub max_index_in_segment : List ℕ → ℕ × Option WalError
  max_index_in_segment bs = max_index_loop (suc (length bs)) 0 bs

  -- the loop of collectSegmentTuplesAll and of collectSegmentCRCsAll
  unfoldable pub collect_loop :
      {A : Type 0} → (Envelope → A) → ℕ → List ℕ → List A × Option WalError
  unfolding keep_normal
  collect_loop f zero bs = ([], none)
  collect_loop f (suc fuel) bs = elim (next_envelope proto bs) [
    | end_of_file ↦ ([], none)
    | fails err ↦ ([], some err)
    | skip rest ↦ collect_loop f fuel rest
    | found env rest ↦
        (keep_normal f env (collect_loop f fuel rest).0, (collect_loop f fuel rest).1)
  ]

  unfoldable pub collect_segment_tuples_all : List ℕ → List (ℕ × ℕ) × Option WalError
  collect_segment_tuples_all bs =
      collect_loop (λ env. (env.raft_index, env.app_crc)) (suc (length bs)) bs

  unfoldable pub collect_segment_crcs_all : List ℕ → List ℕ × Option WalError
  collect_segment_crcs_all bs = collect_loop (λ env. env.app_crc) (suc (length bs)) bs

  -- the loop of ReplayLastHardState over one file
  unfoldable pub hard_state_loop : ℕ → List ℕ → List ℕ → List ℕ × Option WalError
  hard_state_loop zero hs bs = (hs, none)
  hard_state_loop (suc fuel) hs bs = elim (next_envelope proto bs) [
    | end_of_file ↦ (hs, none)
    | fails err ↦ (hs, some err)
    | skip rest ↦ hard_state_loop fuel hs rest
    | found env rest ↦ hard_state_loop fuel (hard_state_or env.kind env.app_bytes hs) rest
  ]

module _ {Fits : Envelope → Type 0} (proto : EnvelopeProto Fits) {S : Type 0}
    (cb : Envelope → S → S × Bool) where
  -- the loop of replaySegment; the callback changes what it captures, and tells whether it succeeds
  unfoldable pub replay_loop : ℕ → List ℕ → S → S × Option WalError
  replay_loop zero bs s = (s, none)
  replay_loop (suc fuel) bs s = elim (next_envelope proto bs) [
    | end_of_file ↦ (s, none)
    | fails err ↦ (s, some err)
    | skip rest ↦ replay_loop fuel rest s
    | found env rest ↦ elim (cb env s).1 [
      | true ↦ replay_loop fuel rest (cb env s).0
      | false ↦ ((cb env s).0, some callback_failed)
    ]
  ]

  unfoldable pub replay_segment : List ℕ → S → S × Option WalError
  replay_segment bs s = replay_loop (suc (length bs)) bs s
