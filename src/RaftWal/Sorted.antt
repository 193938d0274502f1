-- ===== src/RaftWal/Sorted.antt =====
-- The order of segments by the names of their files. The names are compared as text, so it is the order
-- of their numbers for numbers of one digit.
use seven_db.Common.{ℕ, ◌≡◌, ◌<◌, refl, String, true, List, [], ◌∷◌, ◌++◌, arith}
use seven_db.Common.Strconv.{digit, format_digits}
use seven_db.Common.Strconv.RoundTrip.{code-digit}
use seven_db.RaftWal.Frame.{Envelope, EnvelopeProto}
use seven_db.RaftWal.Content.{Segments, Ascends, Ascends-below, stored}
use seven_db.RaftWal.Replay.{segment_name, string_leb, insert_segment, sorted_segments}

-- the name of a segment with a number of one digit
abbrev short_name : ℕ → String
short_name n =
    String.◌∷◌ "s" (String.◌∷◌ "e" (String.◌∷◌ "g" (String.◌∷◌ "-" (String.◌∷◌ (digit n) ".wal"))))

segment_name_short : (n : ℕ) → n < 10 → segment_name n ≡ short_name n
unfolding segment_name format_digits
segment_name_short n h = ground (arith, h)

short_name_leb : (i j : ℕ) → i < j → j < 10 → string_leb (short_name i) (short_name j) ≡ true
unfolding string_leb
short_name_leb i j h l = ground (arith, code-digit i (omega (arith, h, l)), code-digit j l)

segment_name_leb : (i j : ℕ) → i < j → j < 10 → string_leb (segment_name i) (segment_name j) ≡ true
segment_name_leb i j h l =
    rw (segment_name_short i (omega (arith, h, l)), segment_name_short j l) (short_name_leb i j h l)

module _ {Fits : Envelope → Type 0} (proto : EnvelopeProto Fits) where
  -- Up to ten segments are read in the order of their numbers.
  pub sorted_segments-stored :
      (old : Segments) (n : ℕ) (bytes : List ℕ)
      → Ascends old n
      → n < 10
      → sorted_segments (stored proto old ++ ((n, bytes) ∷ []))
        ≡ stored proto old ++ ((n, bytes) ∷ [])
  unfolding sorted_segments insert_segment
  sorted_segments-stored [] n bytes h l = refl
  sorted_segments-stored ((i, es) ∷ []) n bytes h l = rw (segment_name_leb i n h.0 l) refl
  sorted_segments-stored ((i, es) ∷ (j, ds) ∷ old) n bytes h l =
      rw
        (
          sorted_segments-stored ((j, ds) ∷ old) n bytes h.1 l,
          insert_segment,
          segment_name_leb i j h.0 (omega (arith, l, Ascends-below ((j, ds) ∷ old) n h.1)),
        )
        refl
