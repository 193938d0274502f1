-- ===== src/Dencoding/InPlace.antt =====
-- Encoding into a buffer from its end, in as many bytes as the size function says.
use seven_db.Common.{
  ℕ, zero, suc, ◌+◌, ◌*◌, ◌/◌, ◌%◌, ◌^◌, ◌≡◌, ◌<◌, ◌≤◌, refl, ap, ◌∙◌, Option, none, some, List, [],
  ◌∷◌, if◌then◌else◌, nat_beq, arith, Bool-cases, inl, inr, ◌||◌,
}
use seven_db.Common.Lists.{length}
use seven_db.Dencoding.{
  get_lsb, sevens, bit_shifts, marked, encode_bytes, encode_uint, decode_bytes, decode_uint, fill,
  terminate, terminated, encode_uint_rev_in_place, decode_uint_rev, get_encode_uint_size,
}
use seven_db.Dencoding.RoundTrip.{bound, decode_uint-encode_uint}

-- a new buffer
abbrev pub zeros : ℕ → List ℕ
zeros zero = []
zeros (suc n) = 0 ∷ zeros n

decode_bytes-zeros : (n i v : ℕ) → decode_bytes i v (zeros n) ≡ v
unfolding decode_bytes
decode_bytes-zeros zero i v = refl
decode_bytes-zeros (suc n) i v =
    decode_bytes-zeros n (suc i) (v + 0 * 2 ^ (7 * i) % 2 ^ 64) ∙ omega arith

decode_bytes-terminate :
    (i v : ℕ) (bs : List ℕ) → decode_bytes i v (terminate bs) ≡ decode_bytes i v bs
unfolding decode_bytes terminate
decode_bytes-terminate i v [] = refl
decode_bytes-terminate i v (b ∷ []) =
    ap (λ n. v + n * 2 ^ (7 * i) % 2 ^ 64) {x = get_lsb (b % 128) 7} {y = get_lsb b 7} (omega arith)
decode_bytes-terminate i v (b ∷ c ∷ bs) =
    decode_bytes-terminate (suc i) (v + get_lsb b 7 * 2 ^ (7 * i) % 2 ^ 64) (c ∷ bs)

length-encode_bytes :
    (s : ℕ) (ss : List ℕ) (x : ℕ)
    → length (encode_bytes (s ∷ ss) x)
      ≡ (if nat_beq (x / 2 ^ s) 0 then 1 else suc (length (encode_bytes ss (x / 2 ^ s))))
unfolding encode_bytes
length-encode_bytes s ss x = ground arith

-- the buffer was filled, and holds the encoding
Filled : List ℕ → ℕ → Option (List ℕ) → Type 0
Filled ss x o =
    (w : List ℕ) × (o ≡ some w)
    × ((i v : ℕ) → decode_bytes i v w ≡ decode_bytes i v (encode_bytes ss x))

fill-zeros :
    (ss : List ℕ) (x n : ℕ) → length (encode_bytes ss x) ≤ n → Filled ss x (fill ss x (zeros n))
unfolding Filled fill encode_bytes decode_bytes
fill-zeros [] x n h = (zeros n, refl, λ i v. decode_bytes-zeros n i v ∙ omega arith)
fill-zeros (s ∷ ss) x zero h = absurd (ground (arith, h, length-encode_bytes s ss x))
fill-zeros (s ∷ ss) x (suc n) h = elim (Bool-cases (nat_beq (x / 2 ^ s) 0)) [
  | inl last ↦ rw last (
    marked x s ∷ zeros n,
    refl,
    λ i v.
        decode_bytes-zeros n (suc i) (v + get_lsb (marked x s) 7 * 2 ^ (7 * i) % 2 ^ 64)
        ∙ ap (λ r. v + r * 2 ^ (7 * i) % 2 ^ 64) {x = get_lsb (marked x s) 7}
            {y = get_lsb (marked x s % 128) 7} (omega arith),
  )
  | inr more ↦
      let inner =
        fill-zeros ss (x / 2 ^ s) n (ground (arith, h, more, length-encode_bytes s ss x)) in
      rw (more, inner.1)
        (
          marked x s ∷ inner.0,
          refl,
          λ i v. inner.2 (suc i) (v + get_lsb (marked x s) 7 * 2 ^ (7 * i) % 2 ^ 64),
        )
]

fill_fails :
    (k x n : ℕ)
    → x < bound k
    → n < length (encode_bytes (sevens k) x)
    → fill (sevens k) x (zeros n) ≡ none
unfolding fill encode_bytes
fill_fails zero x zero h l = refl
fill_fails zero x (suc n) h l = absurd (ground (arith, l, length-encode_bytes 1 [] x))
fill_fails (suc k) x zero h l = refl
fill_fails (suc k) x (suc n) h l = elim (Bool-cases (nat_beq (x / 128) 0)) [
  | inl last ↦ absurd (ground (arith, last, l, length-encode_bytes 7 (sevens k) x))
  | inr more ↦
      rw
        (
          more,
          fill_fails k (x / 128) n (omega (arith, h))
              (ground (arith, more, l, length-encode_bytes 7 (sevens k) x)),
        )
        refl
]

-- Below 2^35 the size that is computed is the length of the encoding, or one more at 16383, 2097151 and 268435455.
pub get_encode_uint_size-encode_uint :
    (x : ℕ)
    → x < 2 ^ 35
    → get_encode_uint_size x
      ≡ length (encode_uint x)
        + (if nat_beq x 16383 || nat_beq x 2097151 || nat_beq x 268435455 then 1 else 0)
unfolding get_encode_uint_size encode_uint
get_encode_uint_size-encode_uint x h = ground (
  arith,
  length-encode_bytes 7 (sevens 8) x,
  length-encode_bytes 7 (sevens 7) (x / 128),
  length-encode_bytes 7 (sevens 6) (x / 128 / 128),
  length-encode_bytes 7 (sevens 5) (x / 128 / 128 / 128),
  length-encode_bytes 7 (sevens 4) (x / 128 / 128 / 128 / 128),
)

-- Below 2^35 a number is encoded from the end of a new buffer of the computed size, and decoded from the end of it.
pub decode_uint_rev-encode_uint_rev_in_place :
    (x : ℕ)
    → x < 2 ^ 35
    → (w : List ℕ) × (encode_uint_rev_in_place x (zeros (get_encode_uint_size x)) ≡ some w)
      × (decode_uint_rev w ≡ x)
unfolding encode_uint_rev_in_place decode_uint_rev encode_uint decode_uint Filled
decode_uint_rev-encode_uint_rev_in_place x h =
    let filled =
      fill-zeros bit_shifts x (get_encode_uint_size x)
        (ground (arith, get_encode_uint_size-encode_uint x h)) in
    (
      terminate filled.0,
      ap terminated filled.1,
      decode_bytes-terminate 0 0 filled.0
          ∙ filled.2 0 0
          ∙ decode_uint-encode_uint x (omega (arith, h)),
    )

-- From 2^35 on the computed size is too small: encoding into a new buffer of that size indexes out of its range.
pub encode_uint_rev_in_place_fails :
    (x : ℕ)
    → 2 ^ 35 ≤ x
    → x < 2 ^ 64
    → encode_uint_rev_in_place x (zeros (get_encode_uint_size x)) ≡ none
unfolding encode_uint_rev_in_place get_encode_uint_size
encode_uint_rev_in_place_fails x l h = ap terminated (
    fill_fails 9 x (get_encode_uint_size x) h (
      ground (
        arith,
        length-encode_bytes 7 (sevens 8) x,
        length-encode_bytes 7 (sevens 7) (x / 128),
        length-encode_bytes 7 (sevens 6) (x / 128 / 128),
        length-encode_bytes 7 (sevens 5) (x / 128 / 128 / 128),
        length-encode_bytes 7 (sevens 4) (x / 128 / 128 / 128 / 128),
        length-encode_bytes 7 (sevens 3) (x / 128 / 128 / 128 / 128 / 128),
      )))
