-- ===== src/Wal/Unified/Tests.antt =====
-- Envelopes and the theorems on them at concrete ones.
use seven_db.Common.{◌≡◌, refl, [], ◌∷◌, inl, inr, arith}
use seven_db.Wal.Unified.{UwalEntry, encode_uwal, decode_uwal, not_uwal, is_uwal}
use seven_db.Wal.Unified.RoundTrip.{Encodable, decode_uwal-encode_uwal}

abbrev entry : UwalEntry
entry = record {
  kind = 0;
  index = 5000000000;
  term = 2;
  sub_seq = 1;
  cmd = 83 ∷ 69 ∷ 84 ∷ [];
  raft_data = 7 ∷ 8 ∷ [];
}

entry-Encodable : Encodable entry
entry-Encodable = (omega arith, omega arith, omega arith, omega arith, omega arith)

decode_uwal-encode_uwal_example : decode_uwal (encode_uwal entry) ≡ inr entry
decode_uwal-encode_uwal_example = decode_uwal-encode_uwal entry entry-Encodable

other_magic : decode_uwal (85 ∷ 87 ∷ 65 ∷ 76 ∷ 50 ∷ 0 ∷ []) ≡ inl not_uwal
unfolding decode_uwal is_uwal
other_magic = refl
