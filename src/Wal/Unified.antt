-- ===== src/Wal/Unified.antt =====
-- internal/wal/wal_forge.go, the unified envelope: a magic word, the kind, index, term and number of the
-- entry, and the command and the raft data, each behind its length. A byte is a number.
pub mod RoundTrip
mod Tests
use seven_db.Common.{
  ℕ, ◌+◌, ◌*◌, ◌/◌, ◌%◌, ◌^◌, Bool, true, false, not, Option, none, some, List, [], ◌∷◌, ◌++◌, ◌&&◌,
  ◌⊎◌, inl, inr, if◌then◌else◌, nat_beq, ltb,
}
use seven_db.Common.Lists.{length}
use seven_db.Bucket.Frame.{put_u32, u32, read_full}

pub record UwalEntry : Type 0 where
  pub kind : ℕ
  pub index : ℕ
  pub term : ℕ
  pub sub_seq : ℕ
  pub cmd : List ℕ
  pub raft_data : List ℕ

pub data UwalError : Type 0 where
  not_uwal short_header length_exceeds raft_length_exceeds : UwalError

-- binary.LittleEndian.PutUint64, before what follows: the low word first
abbrev pub put_u64 : ℕ → List ℕ → List ℕ
put_u64 n rest = put_u32 (n % 2 ^ 32) (put_u32 (n / 2 ^ 32) rest)

-- binary.LittleEndian.Uint64, of its two words
abbrev pub u64 : ℕ → ℕ → ℕ
u64 low high = low + high * 4294967296

-- "UWAL1"
unfoldable pub is_uwal : List ℕ → Bool
is_uwal (a ∷ b ∷ c ∷ d ∷ e ∷ rest) =
    nat_beq a 85 && nat_beq b 87 && nat_beq c 65 && nat_beq d 76 && nat_beq e 49
is_uwal _ = false

-- a length of 4 bytes, and the bytes
unfoldable pub sized : List ℕ → List ℕ → List ℕ
sized bs rest = put_u32 (length bs) (bs ++ rest)

unfoldable pub encode_uwal : UwalEntry → List ℕ
unfolding sized
encode_uwal e =
    85
    ∷ 87
    ∷ 65
    ∷ 76
    ∷ 49
    ∷ e.kind
    ∷ put_u64 e.index (put_u64 e.term (put_u32 e.sub_seq (sized e.cmd (sized e.raft_data []))))

-- the entry from its fields and the raft data
unfoldable pub with_raft : UwalEntry → Option (List ℕ × List ℕ) → UwalError ⊎ UwalEntry
with_raft e none = inl raft_length_exceeds
with_raft e (some (raft, rest)) = inr (record {
  kind = e.kind;
  index = e.index;
  term = e.term;
  sub_seq = e.sub_seq;
  cmd = e.cmd;
  raft_data = raft;
})

-- behind the command: no raft data where no length is left
unfoldable pub decode_raft : UwalEntry → List ℕ → UwalError ⊎ UwalEntry
unfolding with_raft
decode_raft e (a ∷ b ∷ c ∷ d ∷ rest) = with_raft e (read_full (u32 a b c d) rest)
decode_raft e _ = inr e

unfoldable pub with_cmd : ℕ → ℕ → ℕ → ℕ → Option (List ℕ × List ℕ) → UwalError ⊎ UwalEntry
unfolding decode_raft
with_cmd kind index term sub none = inl length_exceeds
with_cmd kind index term sub (some (cmd, rest)) =
    decode_raft
      (record { kind = kind; index = index; term = term; sub_seq = sub; cmd = cmd; raft_data = [] })
      rest

-- behind the magic word
unfoldable pub decode_fields : List ℕ → UwalError ⊎ UwalEntry
unfolding with_cmd
decode_fields
      (k ∷ i0 ∷ i1 ∷ i2 ∷ i3 ∷ i4 ∷ i5 ∷ i6 ∷ i7 ∷ t0 ∷ t1 ∷ t2 ∷ t3 ∷ t4 ∷ t5 ∷ t6 ∷ t7 ∷ s0 ∷ s1
        ∷ s2 ∷ s3 ∷ l0 ∷ l1 ∷ l2 ∷ l3 ∷ rest) =
    with_cmd k (u64 (u32 i0 i1 i2 i3) (u32 i4 i5 i6 i7)) (u64 (u32 t0 t1 t2 t3) (u32 t4 t5 t6 t7))
      (u32 s0 s1 s2 s3) (read_full (u32 l0 l1 l2 l3) rest)
decode_fields _ = inl short_header

unfoldable pub decode_uwal : List ℕ → UwalError ⊎ UwalEntry
unfolding is_uwal decode_fields
decode_uwal (a ∷ b ∷ c ∷ d ∷ e ∷ rest) =
    if is_uwal (a ∷ b ∷ c ∷ d ∷ e ∷ rest) then decode_fields rest else inl not_uwal
decode_uwal _ = inl not_uwal
