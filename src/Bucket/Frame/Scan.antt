-- ===== src/Bucket/Frame/Scan.antt =====
-- Reading a file that consists of framed entries, up to a tail.
use mathlib.Core.List.{append_assoc}
use seven_db.Common.{
  ℕ, zero, suc, ◌+◌, ◌/◌, ◌%◌, ◌^◌, ◌≡◌, ◌<◌, ◌≤◌, refl, sym, ap, ◌∙◌, Bool, true, false, some,
  List, [], ◌∷◌, ◌++◌, ◌&&◌, nat_beq, arith, Option-cases, Bool-cases, nat_beq_iff, inl, inr,
}
use seven_db.Common.Lists.{length, length-append, All}
use seven_db.Bucket.Frame.{
  WalEntry, EntryJson, checksum, u32, frame, read_full, Turn, stop, skip, found, with_payload,
  with_header, next_record, records, read_records,
}

pub read_full-append : (xs ys : List ℕ) → read_full (length xs) (xs ++ ys) ≡ some (xs, ys)
unfolding read_full
read_full-append [] ys = refl
read_full-append (x ∷ xs) ys = rw (read_full-append xs ys) refl

pub length-read_full :
    (n : ℕ) (bs buf rest : List ℕ) → read_full n bs ≡ some (buf, rest) → n + length rest ≡ length bs
unfolding read_full
length-read_full zero bs buf rest h = ground arith
length-read_full (suc n) [] buf rest h = absurd (ground arith)
length-read_full (suc n) (b ∷ bs) buf rest h = elim (Option-cases (read_full n bs)) [
  | inl empty ↦ absurd (ground (arith, empty))
  | inr ((buf', rest'), full) ↦ ground (arith, full, length-read_full n bs buf' rest' full)
]

pub u32-put_u32 :
    (n : ℕ) → n < 2 ^ 32 → u32 (n % 256) (n / 256 % 256) (n / 65536 % 256) (n / 16777216 % 256) ≡ n
u32-put_u32 n h = omega arith

pub checksum_fits : (bs : List ℕ) → checksum bs < 2 ^ 32
unfolding checksum
checksum_fits bs = omega arith

module _ {B : Type 0} {Keeps : B → Type 0} (json : EntryJson B Keeps) where
  -- the entry can be written and read back
  abbrev pub Storable : WalEntry B → Type 0
  Storable e = Keeps e.bucket_id × Keeps e.epoch.bucket × (length (json.marshal e) < 2 ^ 31)

  -- the bytes of an entry
  abbrev pub frame_of : WalEntry B → List ℕ
  frame_of e = frame (json.marshal e)

  unfoldable pub frames : List (WalEntry B) → List ℕ
  frames [] = []
  frames (e ∷ es) = frame_of e ++ frames es

  with_payload-marshal :
      (e : WalEntry B) (tail : List ℕ)
      → Storable e
      → with_payload json
          (checksum (json.marshal e))
          (read_full (length (json.marshal e)) (json.marshal e ++ tail))
        ≡ found e tail
  unfolding with_payload
  with_payload-marshal e tail h =
      rw
        (
          read_full-append (json.marshal e) tail,
          (nat_beq_iff (checksum (json.marshal e)) (checksum (json.marshal e))).1 refl,
          json.unmarshal-marshal e h.0 h.1,
        )
        refl

  with_header-marshal :
      (zero_stops : Bool) (e : WalEntry B) (tail : List ℕ)
      → Storable e
      → with_header json zero_stops
          (length (json.marshal e))
          (checksum (json.marshal e))
          (json.marshal e ++ tail)
        ≡ found e tail
  unfolding with_header
  with_header-marshal true e tail h = rw (json.length-marshal e) (with_payload-marshal e tail h)
  with_header-marshal false e tail h = with_payload-marshal e tail h

  pub next_record-frame :
      (zero_stops : Bool) (e : WalEntry B) (tail : List ℕ)
      → Storable e
      → next_record json zero_stops (frame_of e ++ tail) ≡ found e tail
  unfolding next_record frame
  next_record-frame zero_stops e tail h =
      rw
        (
          u32-put_u32 (length (json.marshal e)) (omega (arith, h.2)),
          u32-put_u32 (checksum (json.marshal e)) (checksum_fits (json.marshal e)),
        )
        (with_header-marshal zero_stops e tail h)

  -- a turn that goes on leaves less than `n` bytes
  abbrev pub Leaves : ℕ → Turn B → Type 0
  Leaves n stop = Unit
  Leaves n (skip rest) = length rest < n
  Leaves n (found e rest) = length rest < n

  with_payload-Leaves :
      (crc n : ℕ) (bs : List ℕ) → Leaves (suc (length bs)) (with_payload json crc (read_full n bs))
  unfolding with_payload
  with_payload-Leaves crc n bs = elim (Option-cases (read_full n bs)) [
    | inl empty ↦ rw empty tt
    | inr ((buf, rest), full) ↦ rw full (elim (Option-cases (json.unmarshal buf)) [
      | inl bad ↦ rw bad (ground (arith, length-read_full n bs buf rest full))
      | inr (e, good) ↦ rw good (ground (arith, length-read_full n bs buf rest full))
    ])
  ]

  with_header-Leaves :
      (zero_stops : Bool) (len crc : ℕ) (bs : List ℕ)
      → Leaves (suc (length bs)) (with_header json zero_stops len crc bs)
  unfolding with_header
  with_header-Leaves zero_stops len crc bs = elim (Bool-cases (zero_stops && nat_beq len 0)) [
    | inl zeros ↦ rw zeros tt
    | inr some_bytes ↦ rw some_bytes (with_payload-Leaves crc len bs)
  ]

  Leaves-mono : (n m : ℕ) (t : Turn B) → n ≤ m → Leaves n t → Leaves m t
  Leaves-mono n m stop h l = tt
  Leaves-mono n m (skip rest) h l = omega (arith, l)
  Leaves-mono n m (found e rest) h l = omega (arith, l)

  pub next_record-Leaves :
      (zero_stops : Bool) (bs : List ℕ) → Leaves (length bs) (next_record json zero_stops bs)
  unfolding next_record
  next_record-Leaves zero_stops [] = tt
  next_record-Leaves zero_stops (a ∷ []) = tt
  next_record-Leaves zero_stops (a ∷ b ∷ []) = tt
  next_record-Leaves zero_stops (a ∷ b ∷ c ∷ []) = tt
  next_record-Leaves zero_stops (a ∷ b ∷ c ∷ d ∷ []) = tt
  next_record-Leaves zero_stops (a ∷ b ∷ c ∷ d ∷ e ∷ []) = tt
  next_record-Leaves zero_stops (a ∷ b ∷ c ∷ d ∷ e ∷ f ∷ []) = tt
  next_record-Leaves zero_stops (a ∷ b ∷ c ∷ d ∷ e ∷ f ∷ g ∷ []) = tt
  next_record-Leaves zero_stops (a ∷ b ∷ c ∷ d ∷ e ∷ f ∷ g ∷ h ∷ rest) =
      Leaves-mono (suc (length rest)) (suc (suc (suc (suc (suc (suc (suc (suc (length rest)))))))))
        (with_header json zero_stops (u32 a b c d) (u32 e f g h) rest) (omega arith)
        (with_header-Leaves zero_stops (u32 a b c d) (u32 e f g h) rest)

  -- more fuel than bytes is enough
  pub records_fuel :
      (zero_stops : Bool) (f g : ℕ) (bs : List ℕ)
      → length bs < f
      → length bs < g
      → records json zero_stops f bs ≡ records json zero_stops g bs
  unfolding records
  records_fuel zero_stops zero g bs h k = absurd (omega arith)
  records_fuel zero_stops (suc f) zero bs h k = absurd (omega arith)
  records_fuel zero_stops (suc f) (suc g) bs h k =
      go (next_record json zero_stops bs) refl (next_record-Leaves zero_stops bs)
        (records_fuel zero_stops f g)
    where
      go :
          (t : Turn B)
          → next_record json zero_stops bs ≡ t
          → Leaves (length bs) t
          → ((rest : List ℕ)
              → length rest < f
              → length rest < g
              → records json zero_stops f rest ≡ records json zero_stops g rest)
          → records json zero_stops (suc f) bs ≡ records json zero_stops (suc g) bs
      go stop e l ih = rw (e, records) refl
      go (skip rest) e l ih = rw (e, records) (ih rest (omega (arith, l)) (omega (arith, l)))
      go (found en rest) e l ih =
          rw (e, records) (ap (λ es. en ∷ es) (ih rest (omega (arith, l)) (omega (arith, l))))

  length-frame_append : (e : WalEntry B) (tail : List ℕ) → length tail < length (frame_of e ++ tail)
  unfolding frame
  length-frame_append e tail = omega (arith, length-append (json.marshal e) tail)

  -- A framed entry is decoded, and then what follows it.
  read_records-frame :
      (zero_stops : Bool) (e : WalEntry B) (tail : List ℕ)
      → Storable e
      → read_records json zero_stops (frame_of e ++ tail) ≡ e ∷ read_records json zero_stops tail
  unfolding read_records
  read_records-frame zero_stops e tail h =
      rw (next_record-frame zero_stops e tail h, records)
        (ap (λ es. e ∷ es)
          (records_fuel zero_stops (length (frame_of e ++ tail)) (suc (length tail)) tail
            (ground (arith, length-frame_append e tail)) (omega arith)))

  -- Framed entries are decoded in their order, and then what follows them.
  pub read_records-frames :
      (zero_stops : Bool) (es : List (WalEntry B)) (tail : List ℕ)
      → All Storable es
      → read_records json zero_stops (frames es ++ tail) ≡ es ++ read_records json zero_stops tail
  unfolding frames
  read_records-frames zero_stops [] tail h = refl
  read_records-frames zero_stops (e ∷ es) tail h =
      ap (read_records json zero_stops) (append_assoc (frame_of e) (frames es) tail)
      ∙ read_records-frame zero_stops e (frames es ++ tail) h.0
      ∙ ap (λ xs. e ∷ xs) (read_records-frames zero_stops es tail h.1)

  pub frames-append : (es ds : List (WalEntry B)) → frames (es ++ ds) ≡ frames es ++ frames ds
  unfolding frames
  frames-append [] ds = refl
  frames-append (e ∷ es) ds =
      ap (λ xs. frame_of e ++ xs) (frames-append es ds)
      ∙ sym (append_assoc (frame_of e) (frames es) (frames ds))
