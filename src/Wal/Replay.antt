-- ===== src/Wal/Replay.antt =====
-- internal/wal/unified.go, ReplayItem, and internal/wal/wal_forge.go, ReplayItems. The bytes of the
-- segments come in the order of their indices; the type of commands and protobuf on them are
-- parameters.
pub mod Items
pub mod Segments
mod Tests
use seven_db.Common.{
  ℕ, zero, suc, Bool, true, false, not, Option, none, some, List, [], ◌∷◌, ◌⊎◌, inl, inr,
  if◌then◌else◌, nat_beq, ltb,
}
use seven_db.Common.Lists.{length}
use seven_db.Bucket.Frame.{checksum, u32, read_full}
use seven_db.Wal.Unified.{UwalEntry, UwalError, is_uwal, decode_uwal}
use seven_db.Wal.Segment.{Element, ElementProto, uwal_kind_manifest}

-- ReplayItems gives items of the kind EntryKindNormal only, and no hard state
pub record ReplayItem (C : Type 0) : Type 0 where
  pub index : ℕ
  pub term : ℕ
  pub sub_seq : ℕ
  pub timestamp : ℕ
  pub cmd : C
  pub raft_data : List ℕ

-- `out_of_range` is a panic: the buffer for an element has 10 * 1024 bytes
pub data ReplayError : Type 0 where
  bad_header bad_data crc_mismatch bad_element bad_uwal bad_command : ReplayError
  callback_failed out_of_range : ReplayError

abbrev pub uwal_kind_hard_state : ℕ
uwal_kind_hard_state = 1

-- one turn of the loop over a segment
pub data ItemTurn (C : Type 0) : Type 0 where
  segment_done : ItemTurn C
  replay_fails : ReplayError → ItemTurn C
  pass : List ℕ → ItemTurn C
  yields : ReplayItem C → List ℕ → ItemTurn C

module _ {C : Type 0} where
  unfoldable pub yield_item : ℕ → UwalEntry → List ℕ → Option C → ItemTurn C
  yield_item timestamp e rest none = replay_fails bad_command
  yield_item timestamp e rest (some c) =
      yields
        (record {
          index = e.index;
          term = e.term;
          sub_seq = e.sub_seq;
          timestamp = timestamp;
          cmd = c;
          raft_data = e.raft_data;
        })
        rest

  -- a command without an envelope
  unfoldable pub yield_legacy : Element → List ℕ → Option C → ItemTurn C
  yield_legacy el rest none = replay_fails bad_command
  yield_legacy el rest (some c) =
      yields
        (record {
          index = 0;
          term = 0;
          sub_seq = 0;
          timestamp = el.timestamp;
          cmd = c;
          raft_data = el.payload;
        })
        rest

module _ {C : Type 0} (command_of : List ℕ → Option C) where
  unfoldable pub replay_uwal : ℕ → List ℕ → UwalError ⊎ UwalEntry → ItemTurn C
  unfolding yield_item
  replay_uwal timestamp rest (inl err) = replay_fails bad_uwal
  replay_uwal timestamp rest (inr e) =
      if nat_beq e.kind uwal_kind_manifest
      then pass rest
      else if nat_beq e.kind uwal_kind_hard_state
      then pass rest
      else yield_item timestamp e rest (command_of e.cmd)

  unfoldable pub replay_element : Element → List ℕ → ItemTurn C
  unfolding replay_uwal yield_legacy
  replay_element el rest =
      if not el.is_command
      then pass rest
      else if is_uwal el.payload
      then replay_uwal el.timestamp rest (decode_uwal el.payload)
      else yield_legacy el rest (command_of el.payload)

module _ {C : Type 0} (command_of : List ℕ → Option C) {Fits : Element → Type 0}
    (proto : ElementProto Fits) where
  unfoldable pub replay_decoded : Option Element → List ℕ → ItemTurn C
  unfolding replay_element
  replay_decoded none rest = replay_fails bad_element
  replay_decoded (some el) rest = replay_element command_of el rest

  unfoldable pub replay_bytes : ℕ → Option (List ℕ × List ℕ) → ItemTurn C
  unfolding replay_decoded
  replay_bytes crc none = replay_fails bad_data
  replay_bytes crc (some (buf, rest)) =
      if nat_beq crc (checksum buf)
      then replay_decoded (proto.unmarshal buf) rest
      else replay_fails crc_mismatch

  unfoldable pub replay_sized : ℕ → ℕ → List ℕ → ItemTurn C
  unfolding replay_bytes
  replay_sized crc entry_size rest =
      if ltb 10240 entry_size
      then replay_fails out_of_range
      else replay_bytes crc (read_full entry_size rest)

  unfoldable pub next_item : List ℕ → ItemTurn C
  unfolding replay_sized
  next_item [] = segment_done
  next_item (a ∷ b ∷ c ∷ d ∷ e ∷ f ∷ g ∷ h ∷ rest) = replay_sized (u32 a b c d) (u32 e f g h) rest
  next_item _ = replay_fails bad_header

  module _ {S : Type 0} (cb : ReplayItem C → S → S × Bool) where
    -- each turn that goes on takes at least the 8 bytes of a header; the callback changes what it
    -- captures, and tells whether it succeeds
    unfoldable pub item_loop : ℕ → List ℕ → S → S × Option ReplayError
    item_loop zero bs s = (s, none)
    item_loop (suc fuel) bs s = elim (next_item bs) [
      | segment_done ↦ (s, none)
      | replay_fails err ↦ (s, some err)
      | pass rest ↦ item_loop fuel rest s
      | yields it rest ↦ elim (cb it s).1 [
        | true ↦ item_loop fuel rest (cb it s).0
        | false ↦ ((cb it s).0, some callback_failed)
      ]
    ]

    unfoldable pub replay_items : List (List ℕ) → S → S × Option ReplayError
    unfolding item_loop
    replay_items [] s = (s, none)
    replay_items (bs ∷ segments) s = elim (item_loop (suc (length bs)) bs s).1 [
      | some err ↦ ((item_loop (suc (length bs)) bs s).0, some err)
      | none ↦ replay_items segments (item_loop (suc (length bs)) bs s).0
    ]
