-- ===== src/Wal/Segment.antt =====
-- internal/wal/wal_forge.go, the frames of a segment: checksum and length of 4 bytes each, then the
-- element in protobuf, which is a parameter. `AppendEntry` puts the envelope of a normal entry into an
-- element; `lastIndexOfSegment` reads a segment.
pub mod Last
mod Tests
use seven_db.Common.{
  ℕ, zero, suc, ◌≡◌, Bool, true, false, Option, none, some, List, [], ◌∷◌, ◌++◌, ◌&&◌, ◌⊎◌, inl,
  inr, if◌then◌else◌, nat_beq,
}
use seven_db.Common.Lists.{length}
use seven_db.Bucket.Frame.{checksum, put_u32, u32, read_full}
use seven_db.Wal.Unified.{UwalEntry, UwalError, is_uwal, encode_uwal, decode_uwal}

-- a message of dicedb-go, as far as the log uses it; `is_command` tells that its type is
-- ELEMENT_TYPE_COMMAND
pub record Element : Type 0 where
  pub lsn : ℕ
  pub timestamp : ℕ
  pub is_command : Bool
  pub payload : List ℕ

-- proto.Marshal and proto.Unmarshal on elements: what protobuf can represent is read back
pub record ElementProto (Fits : Element → Type 0) : Type 0 where
  pub marshal : Element → List ℕ
  pub unmarshal : List ℕ → Option Element
  pub unmarshal-marshal : (e : Element) → Fits e → unmarshal (marshal e) ≡ some e

abbrev pub uwal_kind_manifest : ℕ
uwal_kind_manifest = 2

-- the element of a normal entry
unfoldable pub normal_element : ℕ → ℕ → UwalEntry → Element
normal_element lsn timestamp e = record {
  lsn = lsn;
  timestamp = timestamp;
  is_command = true;
  payload = encode_uwal e;
}

-- what writePayloadLocked gives to the writer
unfoldable pub element_frame : List ℕ → List ℕ
element_frame eb = put_u32 (checksum eb) (put_u32 (length eb) eb)

-- one turn of the loop over a segment
pub data ElementTurn : Type 0 where
  tail_ends : ElementTurn
  element : Element → List ℕ → ElementTurn

unfoldable pub index_of_entry : ℕ → Element → UwalError ⊎ UwalEntry → ℕ
index_of_entry last el (inl err) = el.lsn
index_of_entry last el (inr e) = if nat_beq e.kind uwal_kind_manifest then last else e.index

-- the raft index of an envelope that is not a preamble, and else the number of the element
unfoldable pub note_index : ℕ → Element → ℕ
unfolding index_of_entry
note_index last el =
    if el.is_command && is_uwal el.payload
    then index_of_entry last el (decode_uwal el.payload)
    else el.lsn

module _ {Fits : Element → Type 0} (proto : ElementProto Fits) where
  unfoldable pub with_element : Option Element → List ℕ → ElementTurn
  with_element none rest = tail_ends
  with_element (some el) rest = element el rest

  unfoldable pub with_element_bytes : ℕ → Option (List ℕ × List ℕ) → ElementTurn
  unfolding with_element
  with_element_bytes crc none = tail_ends
  with_element_bytes crc (some (buf, rest)) =
      if nat_beq (checksum buf) crc then with_element (proto.unmarshal buf) rest else tail_ends

  unfoldable pub next_element : List ℕ → ElementTurn
  unfolding with_element_bytes
  next_element (a ∷ b ∷ c ∷ d ∷ e ∷ f ∷ g ∷ h ∷ rest) =
      with_element_bytes (u32 a b c d) (read_full (u32 e f g h) rest)
  next_element _ = tail_ends

  -- each turn that goes on takes at least the 8 bytes of a header
  unfoldable pub last_index_loop : ℕ → ℕ → List ℕ → ℕ
  unfolding note_index
  last_index_loop zero last bs = last
  last_index_loop (suc fuel) last bs = elim (next_element bs) [
    | tail_ends ↦ last
    | element el rest ↦ last_index_loop fuel (note_index last el) rest
  ]

  unfoldable pub last_index_of_segment : List ℕ → ℕ
  unfolding last_index_loop
  last_index_of_segment bs = last_index_loop (suc (length bs)) 0 bs
