-- ===== src/RaftWal/Frame/Scan.antt =====
-- Reading a segment that consists of framed envelopes: every loop over it folds the envelopes that
-- `scan` lists.
use mathlib.Core.List.{append_assoc}
use seven_db.Common.{
  ℕ, zero, suc, ◌^◌, ◌≡◌, ◌<◌, ◌≤◌, refl, sym, ap, ◌∙◌, false, Option, none, some, List, [], ◌∷◌,
  ◌++◌, nat_beq, arith, Option-cases, Bool-cases, nat_beq_iff, inl, inr,
}
use seven_db.Common.Lists.{length, length-append, All}
use seven_db.Bucket.Frame.{checksum, u32, read_full}
use seven_db.Bucket.Frame.Scan.{read_full-append, length-read_full, u32-put_u32, checksum_fits}
use seven_db.RaftWal.Frame.{
  Envelope, EnvelopeProto, WalError, Turn, end_of_file, fails, skip, found, frame, with_payload,
  with_header, next_envelope,
}

module _ {Fits : Envelope → Type 0} (proto : EnvelopeProto Fits) where
  -- the envelope is read back, and its encoding has a length of 4 bytes that is not 0
  abbrev pub Storable : Envelope → Type 0
  Storable e =
      Fits e × (nat_beq (length (proto.marshal e)) 0 ≡ false) × (length (proto.marshal e) < 2 ^ 32)

  -- the bytes of an envelope
  abbrev pub frame_of : Envelope → List ℕ
  frame_of e = frame (proto.marshal e)

  unfoldable pub frames : List Envelope → List ℕ
  frames [] = []
  frames (e ∷ es) = frame_of e ++ frames es

  -- the envelopes up to the end of the segment or its first error, and the error
  unfoldable pub scan_loop : ℕ → List ℕ → List Envelope × Option WalError
  scan_loop zero bs = ([], none)
  scan_loop (suc fuel) bs = elim (next_envelope proto bs) [
    | end_of_file ↦ ([], none)
    | fails err ↦ ([], some err)
    | skip rest ↦ scan_loop fuel rest
    | found e rest ↦ (e ∷ (scan_loop fuel rest).0, (scan_loop fuel rest).1)
  ]

  unfoldable pub scan : List ℕ → List Envelope × Option WalError
  scan bs = scan_loop (suc (length bs)) bs

  with_payload-marshal :
      (e : Envelope) (tail : List ℕ)
      → Storable e
      → with_payload proto
          (checksum (proto.marshal e))
          (read_full (length (proto.marshal e)) (proto.marshal e ++ tail))
        ≡ found e tail
  unfolding with_payload
  with_payload-marshal e tail h =
      rw
        (
          read_full-append (proto.marshal e) tail,
          (nat_beq_iff (checksum (proto.marshal e)) (checksum (proto.marshal e))).1 refl,
          proto.unmarshal-marshal e h.0,
        )
        refl

  pub next_envelope-frame :
      (e : Envelope) (tail : List ℕ)
      → Storable e
      → next_envelope proto (frame_of e ++ tail) ≡ found e tail
  unfolding next_envelope frame with_header
  next_envelope-frame e tail h =
      rw
        (
          u32-put_u32 (checksum (proto.marshal e)) (checksum_fits (proto.marshal e)),
          u32-put_u32 (length (proto.marshal e)) h.2,
          h.1,
        )
        (with_payload-marshal e tail h)

  -- a turn that goes on leaves less than `n` bytes
  abbrev pub Leaves : ℕ → Turn → Type 0
  Leaves n end_of_file = Unit
  Leaves n (fails err) = Unit
  Leaves n (skip rest) = length rest < n
  Leaves n (found e rest) = length rest < n

  Leaves-mono : (n m : ℕ) (t : Turn) → n ≤ m → Leaves n t → Leaves m t
  Leaves-mono n m end_of_file h l = tt
  Leaves-mono n m (fails err) h l = tt
  Leaves-mono n m (skip rest) h l = omega (arith, l)
  Leaves-mono n m (found e rest) h l = omega (arith, l)

  decoded-Leaves :
      (crc n : ℕ) (payload rest : List ℕ)
      → length rest < n
      → Leaves n (with_payload proto crc (some (payload, rest)))
  unfolding with_payload
  decoded-Leaves crc n payload rest h = elim (Bool-cases (nat_beq (checksum payload) crc)) [
    | inl same ↦ rw same (elim (Option-cases (proto.unmarshal payload)) [
      | inl bad ↦ rw bad tt
      | inr (e, good) ↦ rw good h
    ])
    | inr other ↦ rw other tt
  ]

  with_header-Leaves :
      (crc sz : ℕ) (bs : List ℕ) → Leaves (suc (length bs)) (with_header proto crc sz bs)
  unfolding with_header with_payload
  with_header-Leaves crc sz bs = elim (Bool-cases (nat_beq sz 0)) [
    | inl zeros ↦ rw zeros (omega arith)
    | inr some_bytes ↦ rw some_bytes (elim (Option-cases (read_full sz bs)) [
      | inl empty ↦ rw empty tt
      | inr ((payload, rest), full) ↦ rw full (
          decoded-Leaves crc (suc (length bs)) payload rest
            (omega (arith, length-read_full sz bs payload rest full)))
    ])
  ]

  next_envelope-Leaves : (bs : List ℕ) → Leaves (length bs) (next_envelope proto bs)
  unfolding next_envelope
  next_envelope-Leaves [] = tt
  next_envelope-Leaves (a ∷ []) = tt
  next_envelope-Leaves (a ∷ b ∷ []) = tt
  next_envelope-Leaves (a ∷ b ∷ c ∷ []) = tt
  next_envelope-Leaves (a ∷ b ∷ c ∷ d ∷ []) = tt
  next_envelope-Leaves (a ∷ b ∷ c ∷ d ∷ e ∷ []) = tt
  next_envelope-Leaves (a ∷ b ∷ c ∷ d ∷ e ∷ f ∷ []) = tt
  next_envelope-Leaves (a ∷ b ∷ c ∷ d ∷ e ∷ f ∷ g ∷ []) = tt
  next_envelope-Leaves (a ∷ b ∷ c ∷ d ∷ e ∷ f ∷ g ∷ h ∷ rest) =
      Leaves-mono (suc (length rest)) (suc (suc (suc (suc (suc (suc (suc (suc (length rest)))))))))
        (with_header proto (u32 a b c d) (u32 e f g h) rest) (omega arith)
        (with_header-Leaves (u32 a b c d) (u32 e f g h) rest)

  -- more fuel than bytes is enough
  scan_loop_fuel :
      (f g : ℕ) (bs : List ℕ) → length bs < f → length bs < g → scan_loop f bs ≡ scan_loop g bs
  unfolding scan_loop
  scan_loop_fuel zero g bs h k = absurd (omega arith)
  scan_loop_fuel (suc f) zero bs h k = absurd (omega arith)
  scan_loop_fuel (suc f) (suc g) bs h k =
      go (next_envelope proto bs) refl (next_envelope-Leaves bs) (scan_loop_fuel f g)
    where
      go :
          (t : Turn)
          → next_envelope proto bs ≡ t
          → Leaves (length bs) t
          → ((rest : List ℕ)
              → length rest < f
              → length rest < g
              → scan_loop f rest ≡ scan_loop g rest)
          → scan_loop (suc f) bs ≡ scan_loop (suc g) bs
      go end_of_file e l ih = rw (e, scan_loop) refl
      go (fails err) e l ih = rw (e, scan_loop) refl
      go (skip rest) e l ih = rw (e, scan_loop) (ih rest (omega (arith, l)) (omega (arith, l)))
      go (found en rest) e l ih =
          rw (e, scan_loop)
            (ap (λ r. (en ∷ r.0, r.1)) (ih rest (omega (arith, l)) (omega (arith, l))))

  length-frame_append : (e : Envelope) (tail : List ℕ) → length tail < length (frame_of e ++ tail)
  unfolding frame
  length-frame_append e tail = omega (arith, length-append (proto.marshal e) tail)

  scan-frame :
      (e : Envelope) (tail : List ℕ)
      → Storable e
      → scan (frame_of e ++ tail) ≡ (e ∷ (scan tail).0, (scan tail).1)
  unfolding scan scan_loop
  scan-frame e tail h =
      rw (next_envelope-frame e tail h, scan_loop)
        (ap (λ r. (e ∷ r.0, r.1))
          (scan_loop_fuel (length (frame_of e ++ tail)) (suc (length tail)) tail
            (length-frame_append e tail) (omega arith)))

  -- Framed envelopes are read in their order, and then what follows them.
  pub scan-frames :
      (es : List Envelope) (tail : List ℕ)
      → All Storable es
      → scan (frames es ++ tail) ≡ (es ++ (scan tail).0, (scan tail).1)
  unfolding frames
  scan-frames [] tail h = refl
  scan-frames (e ∷ es) tail h =
      ap scan (append_assoc (frame_of e) (frames es) tail)
      ∙ scan-frame e (frames es ++ tail) h.0
      ∙ ap (λ r. (e ∷ r.0, r.1)) (scan-frames es tail h.1)

  pub frames-append : (es ds : List Envelope) → frames (es ++ ds) ≡ frames es ++ frames ds
  unfolding frames
  frames-append [] ds = refl
  frames-append (e ∷ es) ds =
      ap (λ xs. frame_of e ++ xs) (frames-append es ds)
      ∙ sym (append_assoc (frame_of e) (frames es) (frames ds))
