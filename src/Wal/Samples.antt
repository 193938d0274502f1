-- ===== src/Wal/Samples.antt =====
-- An encoding of elements, entries, and a torn frame.
use seven_db.Common.{
  ℕ, ◌+◌, ◌<◌, ◌≡◌, refl, Bool, true, false, Option, none, some, List, [], ◌∷◌, ◌++◌, nat_beq,
  arith,
}
use seven_db.Common.Lists.{length}
use seven_db.Bucket.Frame.{checksum, put_u32}
use seven_db.Wal.Unified.{sized, encode_uwal}
use seven_db.Wal.Segment.{Element, ElementProto, normal_element, element_frame}
use seven_db.Wal.Segment.Last.{Appended, bytes_of, Writable}

abbrev read_element : List ℕ → Option Element
read_element (lsn ∷ timestamp ∷ flag ∷ payload) =
    some
      (record { lsn = lsn; timestamp = timestamp; is_command = nat_beq flag 1; payload = payload })
read_element _ = none

abbrev write_element : Element → List ℕ
write_element e = e.lsn ∷ e.timestamp ∷ (elim e.is_command [ true ↦ 1 | false ↦ 0 ]) ∷ e.payload

pub read_element-write_element :
    (lsn timestamp : ℕ) (is_command : Bool) (payload : List ℕ)
    → read_element (
        write_element
          (record { lsn = lsn; timestamp = timestamp; is_command = is_command; payload = payload }))
      ≡ some
          (record { lsn = lsn; timestamp = timestamp; is_command = is_command; payload = payload })
read_element-write_element lsn timestamp true payload = refl
read_element-write_element lsn timestamp false payload = refl

-- an encoding of elements with a place for each field
abbrev pub plain : ElementProto (λ el. Unit)
plain = record {
  marshal = write_element;
  unmarshal = read_element;
  unmarshal-marshal = λ e h. read_element-write_element e.lsn e.timestamp e.is_command e.payload;
}

abbrev pub numbered : ℕ → Appended
numbered n = record {
  lsn = n;
  timestamp = 9;
  entry = record {
    kind = 0;
    index = 40 + n;
    term = 2;
    sub_seq = 0;
    cmd = 71 ∷ 69 ∷ 84 ∷ [];
    raft_data = 7 ∷ [];
  };
}

pub first-Writable : Writable plain (numbered 1)
unfolding normal_element encode_uwal sized
first-Writable =
    ((omega arith, omega arith, omega arith, omega arith, omega arith), refl, tt, omega arith)

pub second-Writable : Writable plain (numbered 2)
unfolding normal_element encode_uwal sized
second-Writable =
    ((omega arith, omega arith, omega arith, omega arith, omega arith), refl, tt, omega arith)

pub third-Writable : Writable plain (numbered 3)
unfolding normal_element encode_uwal sized
third-Writable =
    ((omega arith, omega arith, omega arith, omega arith, omega arith), refl, tt, omega arith)

-- the header of the third frame and two bytes of its element
abbrev pub torn : List ℕ
torn =
    put_u32 (checksum (bytes_of plain (numbered 3)))
      (put_u32 (length (bytes_of plain (numbered 3))) (3 ∷ 9 ∷ []))

pub torn-append :
    torn ++ (1 ∷ encode_uwal (numbered 3).entry) ≡ element_frame (bytes_of plain (numbered 3))
unfolding element_frame normal_element
torn-append = refl

pub some_cut : 0 < length (1 ∷ encode_uwal (numbered 3).entry)
some_cut = omega arith
