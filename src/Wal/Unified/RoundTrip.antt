-- ===== src/Wal/Unified/RoundTrip.antt =====
-- Encoding an envelope and decoding it, whole and cut off.
use seven_db.Common.{
  ℕ, ◌/◌, ◌%◌, ◌^◌, ◌≡◌, ◌<◌, refl, ap, ◌∙◌, List, [], ◌∷◌, ◌++◌, inl, inr, arith, if◌then◌else◌,
  ltb,
}
use seven_db.Common.Lists.{length, length-append}
use seven_db.Bucket.Frame.{put_u32, u32}
use seven_db.Bucket.Frame.Scan.{read_full-append, u32-put_u32}
use seven_db.Bucket.Frame.Tear.{read_full_short}
use seven_db.Wal.Unified.{
  UwalEntry, raft_length_exceeds, put_u64, u64, is_uwal, sized, encode_uwal, with_raft, decode_raft,
  with_cmd, decode_fields, decode_uwal,
}

-- the numbers and the lengths have the width of their fields
abbrev pub Encodable : UwalEntry → Type 0
Encodable e =
    (e.index < 2 ^ 64)
    × (e.term < 2 ^ 64)
    × (e.sub_seq < 2 ^ 32)
    × (length e.cmd < 2 ^ 32)
    × (length e.raft_data < 2 ^ 32)

-- the bytes of an envelope up to its command, and others behind it
abbrev pub before : UwalEntry → List ℕ → List ℕ
before e tail =
    85
    ∷ 87
    ∷ 65
    ∷ 76
    ∷ 49
    ∷ e.kind
    ∷ put_u64 e.index (put_u64 e.term (put_u32 e.sub_seq (sized e.cmd tail)))

-- an envelope without its raft data
abbrev pub without_raft : UwalEntry → UwalEntry
without_raft e = record {
  kind = e.kind;
  index = e.index;
  term = e.term;
  sub_seq = e.sub_seq;
  cmd = e.cmd;
  raft_data = [];
}

u64-put_u64 :
    (n : ℕ)
    → n < 2 ^ 64
    → u64
        (u32
          (n % 2 ^ 32 % 256)
          (n % 2 ^ 32 / 256 % 256)
          (n % 2 ^ 32 / 65536 % 256)
          (n % 2 ^ 32 / 16777216 % 256))
        (u32
          (n / 2 ^ 32 % 256)
          (n / 2 ^ 32 / 256 % 256)
          (n / 2 ^ 32 / 65536 % 256)
          (n / 2 ^ 32 / 16777216 % 256))
      ≡ n
u64-put_u64 n h =
    ap
      (λ low. u64 low (
        u32 (n / 2 ^ 32 % 256) (n / 2 ^ 32 / 256 % 256) (n / 2 ^ 32 / 65536 % 256)
          (n / 2 ^ 32 / 16777216 % 256)))
      (u32-put_u32 (n % 2 ^ 32) (omega arith))
    ∙ ap (u64 (n % 2 ^ 32)) (u32-put_u32 (n / 2 ^ 32) (omega (arith, h)))
    ∙ omega arith

-- the fields up to the command are read back, and then what follows
decode-before :
    (e : UwalEntry) (tail : List ℕ)
    → Encodable e
    → decode_uwal (before e tail) ≡ decode_raft (without_raft e) tail
unfolding decode_uwal is_uwal decode_fields with_cmd sized
decode-before e tail h =
    rw
      (
        u64-put_u64 e.index h.0,
        u64-put_u64 e.term h.1,
        u32-put_u32 e.sub_seq h.2,
        u32-put_u32 (length e.cmd) h.3,
        read_full-append e.cmd tail,
      )
      refl

-- Decoding an encoded envelope gives it back, where its numbers and lengths have the width of their
-- fields.
pub decode_uwal-encode_uwal : (e : UwalEntry) → Encodable e → decode_uwal (encode_uwal e) ≡ inr e
unfolding encode_uwal sized decode_raft with_raft
decode_uwal-encode_uwal e h =
    decode-before e (sized e.raft_data []) h
    ∙ rw (u32-put_u32 (length e.raft_data) h.4, read_full-append e.raft_data []) refl

-- the length that the first bytes state
abbrev stated : List ℕ → ℕ
stated (a ∷ b ∷ c ∷ d ∷ rest) = u32 a b c d
stated _ = 0

-- An envelope that is cut off behind its command is decoded without its raft data where less than the 4
-- bytes of their length are left, and is an error where more is left. The conditions are that something
-- is cut off, and that the numbers and lengths of the envelope have the width of their fields.
pub decode_uwal_cut :
    (e : UwalEntry) (part cut : List ℕ)
    → Encodable e
    → part ++ cut ≡ sized e.raft_data []
    → 0 < length cut
    → decode_uwal (before e part)
      ≡ (if ltb (length part) 4 then inr (without_raft e) else inl raft_length_exceeds)
unfolding decode_raft with_raft sized
decode_uwal_cut e part cut h whole some_cut = decode-before e part h ∙ go part whole
  where
    go :
        (p : List ℕ)
        → p ++ cut ≡ sized e.raft_data []
        → decode_raft (without_raft e) p
          ≡ (if ltb (length p) 4 then inr (without_raft e) else inl raft_length_exceeds)
    go [] w = refl
    go (a ∷ []) w = refl
    go (a ∷ b ∷ []) w = refl
    go (a ∷ b ∷ c ∷ []) w = refl
    go (a ∷ b ∷ c ∷ d ∷ rest) w =
        ap (with_raft (without_raft e)) (
          read_full_short (u32 a b c d) rest (
            omega (
              arith,
              ap stated w,
              u32-put_u32 (length e.raft_data) h.4,
              ap length w,
              length-append rest cut,
              length-append e.raft_data [],
              some_cut,
            )))
        ∙ ground arith
