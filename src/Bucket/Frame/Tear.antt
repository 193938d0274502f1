-- ===== src/Bucket/Frame/Tear.antt =====
-- Reading a file that ends in a part of a frame, as a crash in the middle of a write leaves it.
use mathlib.Core.List.{append-nil}
use seven_db.Common.{
  ℕ, zero, suc, ◌≡◌, ◌<◌, refl, ap, ◌∙◌, Bool, false, none, some, List, [], ◌∷◌, ◌++◌, ◌&&◌,
  nat_beq, arith, Option-cases, Bool-cases, inl, inr,
}
use seven_db.Common.Lists.{length, length-append, All}
use seven_db.Bucket.Frame.{
  WalEntry, EntryJson, checksum, put_u32, u32, frame, read_full, stop, with_payload, with_header,
  next_record, records, read_records,
}
use seven_db.Bucket.Frame.Scan.{
  Storable, frame_of, frames, read_records-frames, u32-put_u32, checksum_fits,
}

pub read_full_short : (n : ℕ) (bs : List ℕ) → length bs < n → read_full n bs ≡ none
unfolding read_full
read_full_short zero bs h = absurd (omega arith)
read_full_short (suc n) [] h = refl
read_full_short (suc n) (b ∷ bs) h = rw (read_full_short n bs (omega (arith, h))) refl

-- the length that a header states
abbrev stated : List ℕ → ℕ
stated (a ∷ b ∷ c ∷ d ∷ rest) = u32 a b c d
stated _ = 0

-- the payload that a header of `p` announces is not `p`
abbrev pub IsMixed : List ℕ → List ℕ → Type 0
IsMixed p bs =
    (buf rest : List ℕ)
    → read_full (length p) bs ≡ some (buf, rest)
    → nat_beq (checksum buf) (checksum p) ≡ false

module _ {B : Type 0} {Keeps : B → Type 0} (json : EntryJson B Keeps) where
  with_header_short :
      (zero_stops : Bool) (len crc : ℕ) (rest : List ℕ)
      → length rest < len
      → with_header json zero_stops len crc rest ≡ stop
  unfolding with_header with_payload
  with_header_short zero_stops len crc rest h = elim (Bool-cases (zero_stops && nat_beq len 0)) [
    | inl zeros ↦ rw zeros refl
    | inr some_bytes ↦ rw (some_bytes, read_full_short len rest h) refl
  ]

  stop_ends :
      (zero_stops : Bool) (bs : List ℕ)
      → next_record json zero_stops bs ≡ stop
      → read_records json zero_stops bs ≡ []
  unfolding read_records
  stop_ends zero_stops bs h = rw (h, records) refl

  next_record_torn :
      (zero_stops : Bool) (e : WalEntry B) (bs cut : List ℕ)
      → Storable json e
      → bs ++ cut ≡ frame_of json e
      → 0 < length cut
      → next_record json zero_stops bs ≡ stop
  unfolding next_record frame
  next_record_torn zs e [] cut s h l = refl
  next_record_torn zs e (a ∷ []) cut s h l = refl
  next_record_torn zs e (a ∷ b ∷ []) cut s h l = refl
  next_record_torn zs e (a ∷ b ∷ c ∷ []) cut s h l = refl
  next_record_torn zs e (a ∷ b ∷ c ∷ d ∷ []) cut s h l = refl
  next_record_torn zs e (a ∷ b ∷ c ∷ d ∷ x ∷ []) cut s h l = refl
  next_record_torn zs e (a ∷ b ∷ c ∷ d ∷ x ∷ y ∷ []) cut s h l = refl
  next_record_torn zs e (a ∷ b ∷ c ∷ d ∷ x ∷ y ∷ z ∷ []) cut s h l = refl
  next_record_torn zs e (a ∷ b ∷ c ∷ d ∷ x ∷ y ∷ z ∷ w ∷ rest) cut s h l =
      with_header_short zs (u32 a b c d) (u32 x y z w) rest (
        omega (
          arith,
          ap stated h,
          u32-put_u32 (length (json.marshal e)) (omega (arith, s.2)),
          ap length h,
          length-append rest cut,
        ))

  -- A file of frames that ends in a part of a frame is read as the file of the frames.
  pub read_records_torn :
      (zero_stops : Bool) (es : List (WalEntry B)) (e : WalEntry B) (bs cut : List ℕ)
      → All (Storable json) es
      → Storable json e
      → bs ++ cut ≡ frame_of json e
      → 0 < length cut
      → read_records json zero_stops (frames json es ++ bs) ≡ es
  read_records_torn zero_stops es e bs cut h s t l =
      read_records-frames json zero_stops es bs h
      ∙ ap (λ ds. es ++ ds) (stop_ends zero_stops bs (next_record_torn zero_stops e bs cut s t l))
      ∙ append-nil es

  with_header_mixed :
      (zero_stops : Bool) (p bs : List ℕ)
      → IsMixed p bs
      → with_header json zero_stops (length p) (checksum p) bs ≡ stop
  unfolding with_header with_payload
  with_header_mixed zero_stops p bs h = elim (Option-cases (read_full (length p) bs)) [
    | inl short ↦ rw short (ground arith)
    | inr ((buf, rest), full) ↦ rw (full, h buf rest full) (ground arith)
  ]

  -- Bytes behind the header of a frame with another payload end the reading.
  pub read_records_mixed :
      (zero_stops : Bool) (es : List (WalEntry B)) (e : WalEntry B) (bs : List ℕ)
      → All (Storable json) es
      → Storable json e
      → IsMixed (json.marshal e) bs
      → read_records json zero_stops (
          frames json es
          ++ put_u32 (length (json.marshal e)) (put_u32 (checksum (json.marshal e)) bs))
        ≡ es
  unfolding next_record
  read_records_mixed zero_stops es e bs h s mixed =
      read_records-frames json zero_stops es
        (put_u32 (length (json.marshal e)) (put_u32 (checksum (json.marshal e)) bs)) h
      ∙ ap (λ ds. es ++ ds)
          (stop_ends zero_stops
            (put_u32 (length (json.marshal e)) (put_u32 (checksum (json.marshal e)) bs))
            (rw
              (
                u32-put_u32 (length (json.marshal e)) (omega (arith, s.2)),
                u32-put_u32 (checksum (json.marshal e)) (checksum_fits (json.marshal e)),
              )
              (with_header_mixed zero_stops (json.marshal e) bs mixed)))
      ∙ append-nil es
