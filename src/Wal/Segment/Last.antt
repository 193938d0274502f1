-- ===== src/Wal/Segment/Last.antt =====
-- The last index of a segment that AppendEntry has written, with a torn frame at its end.
use mathlib.Core.List.{append_assoc}
use seven_db.Common.{
  ℕ, zero, suc, ◌^◌, ◌≡◌, ◌<◌, refl, ap, ◌∙◌, true, false, some, List, [], ◌∷◌, ◌++◌, nat_beq,
  nat_beq_iff, arith,
}
use seven_db.Common.Lists.{length, length-append, All}
use seven_db.Bucket.Frame.{checksum, u32}
use seven_db.Bucket.Frame.Scan.{read_full-append, u32-put_u32, checksum_fits}
use seven_db.Bucket.Frame.Tear.{read_full_short}
use seven_db.Wal.Unified.{UwalEntry, is_uwal, encode_uwal}
use seven_db.Wal.Unified.RoundTrip.{Encodable, decode_uwal-encode_uwal}
use seven_db.Wal.Segment.{
  Element, ElementProto, uwal_kind_manifest, normal_element, element_frame, tail_ends, element,
  index_of_entry, note_index, with_element, with_element_bytes, next_element, last_index_loop,
  last_index_of_segment,
}

-- an entry and the number and the time of its element
pub record Appended : Type 0 where
  pub lsn : ℕ
  pub timestamp : ℕ
  pub entry : UwalEntry

abbrev pub element_of : Appended → Element
element_of x = normal_element x.lsn x.timestamp x.entry

-- the index of the last of the entries, or `n` where there are none
abbrev pub last_appended : ℕ → List Appended → ℕ
last_appended n [] = n
last_appended n (x ∷ xs) = last_appended x.entry.index xs

pub is_uwal-encode_uwal : (e : UwalEntry) → is_uwal (encode_uwal e) ≡ true
unfolding is_uwal encode_uwal
is_uwal-encode_uwal e = refl

note_index-normal :
    (last : ℕ) (x : Appended)
    → Encodable x.entry
    → nat_beq x.entry.kind uwal_kind_manifest ≡ false
    → note_index last (element_of x) ≡ x.entry.index
unfolding note_index normal_element index_of_entry
note_index-normal last x h k =
    rw (is_uwal-encode_uwal x.entry, decode_uwal-encode_uwal x.entry h, k) refl

-- the length that a header states
abbrev stated : List ℕ → ℕ
stated (a ∷ b ∷ c ∷ d ∷ e ∷ f ∷ g ∷ h ∷ rest) = u32 e f g h
stated _ = 0

module _ {Fits : Element → Type 0} (proto : ElementProto Fits) where
  abbrev pub bytes_of : Appended → List ℕ
  bytes_of x = proto.marshal (element_of x)

  -- the entry is not a preamble of the manifest, its numbers and lengths have the width of their fields,
  -- and its element is read back and has a length of 4 bytes
  abbrev pub Writable : Appended → Type 0
  Writable x =
      Encodable x.entry
      × (nat_beq x.entry.kind uwal_kind_manifest ≡ false)
      × Fits (element_of x)
      × (length (bytes_of x) < 2 ^ 32)

  unfoldable pub segment_of : List Appended → List ℕ
  segment_of [] = []
  segment_of (x ∷ xs) = element_frame (bytes_of x) ++ segment_of xs

  with_element-marshal :
      (x : Appended) (tail : List ℕ)
      → Fits (element_of x)
      → with_element_bytes proto (checksum (bytes_of x)) (some (bytes_of x, tail))
        ≡ element (element_of x) tail
  unfolding with_element_bytes with_element
  with_element-marshal x tail h =
      rw
        (
          (nat_beq_iff (checksum (bytes_of x)) (checksum (bytes_of x))).1 refl,
          proto.unmarshal-marshal (element_of x) h,
        )
        refl

  next_element-frame :
      (x : Appended) (tail : List ℕ)
      → Writable x
      → next_element proto (element_frame (bytes_of x) ++ tail) ≡ element (element_of x) tail
  unfolding next_element element_frame
  next_element-frame x tail h =
      rw
        (
          u32-put_u32 (checksum (bytes_of x)) (checksum_fits (bytes_of x)),
          u32-put_u32 (length (bytes_of x)) h.3,
          read_full-append (bytes_of x) tail,
        )
        (with_element-marshal x tail h.2)

  last_index_loop_tail :
      (fuel last : ℕ) (tail : List ℕ)
      → next_element proto tail ≡ tail_ends
      → last_index_loop proto fuel last tail ≡ last
  unfolding last_index_loop
  last_index_loop_tail zero last tail h = refl
  last_index_loop_tail (suc fuel) last tail h = rw (h, last_index_loop) refl

  pub length-element_frame :
      (x : Appended) (tail : List ℕ) → length tail < length (element_frame (bytes_of x) ++ tail)
  unfolding element_frame
  length-element_frame x tail = omega (arith, length-append (bytes_of x) tail)

  last_index_loop_turn :
      (fuel last : ℕ) (x : Appended) (tail : List ℕ)
      → Writable x
      → last_index_loop proto (suc fuel) last (element_frame (bytes_of x) ++ tail)
        ≡ last_index_loop proto fuel x.entry.index tail
  unfolding last_index_loop
  last_index_loop_turn fuel last x tail h =
      rw (next_element-frame x tail h, last_index_loop)
        (ap (λ n. last_index_loop proto fuel n tail) (note_index-normal last x h.0 h.1))

  last_index_loop-segment_of :
      (fuel last : ℕ) (xs : List Appended) (tail : List ℕ)
      → All Writable xs
      → next_element proto tail ≡ tail_ends
      → length (segment_of xs ++ tail) < fuel
      → last_index_loop proto fuel last (segment_of xs ++ tail) ≡ last_appended last xs
  unfolding segment_of
  last_index_loop-segment_of fuel last [] tail h t f = last_index_loop_tail fuel last tail t
  last_index_loop-segment_of zero last (x ∷ xs) tail h t f = absurd (omega (arith, f))
  last_index_loop-segment_of (suc fuel) last (x ∷ xs) tail h t f =
      ap (last_index_loop proto (suc fuel) last)
        (append_assoc (element_frame (bytes_of x)) (segment_of xs) tail)
      ∙ last_index_loop_turn fuel last x (segment_of xs ++ tail) h.0
      ∙ last_index_loop-segment_of fuel x.entry.index xs tail h.1 t (
          omega (
            arith,
            f,
            ap length (append_assoc (element_frame (bytes_of x)) (segment_of xs) tail),
            length-element_frame x (segment_of xs ++ tail),
          ))

  -- A part of a frame ends the loop.
  next_element_cut :
      (x : Appended) (part cut : List ℕ)
      → length (bytes_of x) < 2 ^ 32
      → part ++ cut ≡ element_frame (bytes_of x)
      → 0 < length cut
      → next_element proto part ≡ tail_ends
  unfolding next_element with_element_bytes element_frame
  next_element_cut x [] cut l w c = refl
  next_element_cut x (p0 ∷ []) cut l w c = refl
  next_element_cut x (p0 ∷ p1 ∷ []) cut l w c = refl
  next_element_cut x (p0 ∷ p1 ∷ p2 ∷ []) cut l w c = refl
  next_element_cut x (p0 ∷ p1 ∷ p2 ∷ p3 ∷ []) cut l w c = refl
  next_element_cut x (p0 ∷ p1 ∷ p2 ∷ p3 ∷ p4 ∷ []) cut l w c = refl
  next_element_cut x (p0 ∷ p1 ∷ p2 ∷ p3 ∷ p4 ∷ p5 ∷ []) cut l w c = refl
  next_element_cut x (p0 ∷ p1 ∷ p2 ∷ p3 ∷ p4 ∷ p5 ∷ p6 ∷ []) cut l w c = refl
  next_element_cut x (p0 ∷ p1 ∷ p2 ∷ p3 ∷ p4 ∷ p5 ∷ p6 ∷ p7 ∷ rest) cut l w c =
      ap (with_element_bytes proto (u32 p0 p1 p2 p3)) (
        read_full_short (u32 p4 p5 p6 p7) rest (
          omega (
            arith,
            ap stated w,
            u32-put_u32 (length (bytes_of x)) l,
            ap length w,
            length-append rest cut,
            c,
          )))

  -- A segment that holds the frames of appended entries, and at its end a part of the frame of one more
  -- as a crash leaves it, has as its last index the index of the last whole entry, or 0 where there is
  -- none. The conditions are those on an appended entry: it is not a preamble, its numbers and lengths
  -- have the width of their fields, and protobuf reads its element back.
  pub last_index_of_segment-segment_of :
      (xs : List Appended) (x : Appended) (part cut : List ℕ)
      → All Writable xs
      → Writable x
      → part ++ cut ≡ element_frame (bytes_of x)
      → 0 < length cut
      → last_index_of_segment proto (segment_of xs ++ part) ≡ last_appended 0 xs
  unfolding last_index_of_segment
  last_index_of_segment-segment_of xs x part cut h hx w c =
      last_index_loop-segment_of (suc (length (segment_of xs ++ part))) 0 xs part h
        (next_element_cut x part cut hx.3 w c) (omega arith)
