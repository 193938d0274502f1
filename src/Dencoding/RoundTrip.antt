-- ===== src/Dencoding/RoundTrip.antt =====
-- Decoding what was encoded.
use seven_db.Common.{
  ℕ, zero, suc, ◌+◌, ◌*◌, ◌/◌, ◌%◌, ◌^◌, ◌≡◌, ◌<◌, ◌≤◌, refl, sym, ap, subst, ◌∙◌, true, [], ◌∷◌,
  if◌then◌else◌, nat_beq, leb, arith, Bool-cases, inl, inr,
}
use native.Mathlib.Nat.{mul-le-mul_right, mul-le-mul_left, pow-succ'}
use seven_db.Dencoding.{
  get_lsb, sevens, marked, encode_bytes, encode_uint, decode_bytes, decode_uint, flip, encode_int,
  decode_int,
}

-- the numbers that `sevens k` has bits for
abbrev pub bound : ℕ → ℕ
bound zero = 2
bound (suc k) = 128 * bound k

pow_step : (n : ℕ) → 2 ^ suc (suc (suc (suc (suc (suc (suc n)))))) ≡ 128 * 2 ^ n
pow_step n = omega (
  arith,
  pow-succ' 2 n,
  pow-succ' 2 (n + 1),
  pow-succ' 2 (n + 2),
  pow-succ' 2 (n + 3),
  pow-succ' 2 (n + 4),
  pow-succ' 2 (n + 5),
  pow-succ' 2 (n + 6),
)

scale_step : (i : ℕ) → 2 ^ (7 * suc i) ≡ 128 * 2 ^ (7 * i)
scale_step i = ap (λ n. 2 ^ n) (omega arith) ∙ pow_step (7 * i)

low_fits : (r s : ℕ) → r < 128 → s * 128 ≤ 2 ^ 64 → (r * s) % 2 ^ 64 ≡ r * s
low_fits r s h k = omega (arith, mul-le-mul_right {m = r} {n = 127} s (omega arith))

join_scale : (q r s : ℕ) → r * s + q * (128 * s) ≡ (r + 128 * q) * s
join_scale q r s = grind arith

bound_pos : (k : ℕ) → 2 ≤ bound k
bound_pos zero = omega arith
bound_pos (suc k) = omega (arith, bound_pos k)

scale_fits : (k s : ℕ) → s * bound (suc k) ≤ 2 ^ 64 → s * 128 ≤ 2 ^ 64
scale_fits k s h =
    omega (arith, h, mul-le-mul_left {m = 128} {n = bound (suc k)} s (omega (arith, bound_pos k)))

scale_next : (k i : ℕ) → 2 ^ (7 * i) * bound (suc k) ≤ 2 ^ 64 → 2 ^ (7 * suc i) * bound k ≤ 2 ^ 64
scale_next k i h =
    subst (λ n. n ≤ 2 ^ 64) (sym (ap (λ s. s * bound k) (scale_step i) ∙ grind arith)) h

-- the last byte adds the number that is left, and a marked one its low bits
step_last :
    (x s : ℕ) → x < 128 → s * 128 ≤ 2 ^ 64 → get_lsb (marked x 7 % 128) 7 * s % 2 ^ 64 ≡ x * s
step_last x s h k = ap (λ r. r * s % 2 ^ 64) (omega arith) ∙ low_fits x s h k

step_marked : (x s : ℕ) → s * 128 ≤ 2 ^ 64 → get_lsb (marked x 7) 7 * s % 2 ^ 64 ≡ x % 128 * s
step_marked x s k = ap (λ r. r * s % 2 ^ 64) (omega arith) ∙ low_fits (x % 128) s (omega arith) k

step_top : (x s : ℕ) → x < 2 → s * 2 ≤ 2 ^ 64 → get_lsb (marked x 1 % 128) 7 * s % 2 ^ 64 ≡ x * s
step_top zero s h k = ap (λ r. r * s % 2 ^ 64) refl ∙ omega arith
step_top (suc zero) s h k = omega arith
step_top (suc (suc x)) s h k = absurd (omega arith)

sum_scale :
    (i v x : ℕ) → v + x % 128 * 2 ^ (7 * i) + x / 128 * 2 ^ (7 * suc i) ≡ v + x * 2 ^ (7 * i)
sum_scale i v x =
    ap (λ n. v + x % 128 * 2 ^ (7 * i) + x / 128 * n) (scale_step i)
    ∙ omega (
      arith,
      join_scale (x / 128) (x % 128) (2 ^ (7 * i)),
      ap (λ n. n * 2 ^ (7 * i)) {x = x % 128 + 128 * (x / 128)} {y = x} (omega arith),
    )

pub decode_bytes-encode_bytes :
    (k i v x : ℕ)
    → x < bound k
    → 2 ^ (7 * i) * bound k ≤ 2 ^ 64
    → decode_bytes i v (encode_bytes (sevens k) x) ≡ v + x * 2 ^ (7 * i)
unfolding decode_bytes encode_bytes
decode_bytes-encode_bytes zero i v x h f =
    ap (λ t. decode_bytes i v (if t then (marked x 1 % 128) ∷ [] else marked x 1 ∷ 0 ∷ []))
      {x = nat_beq (x / 2) 0} {y = true} (ground arith)
    ∙ ap (λ n. v + n) (step_top x (2 ^ (7 * i)) h f)
decode_bytes-encode_bytes (suc k) i v x h f = elim (Bool-cases (nat_beq (x / 128) 0)) [
  | inl last ↦
      rw last
        (ap (λ n. v + n) (step_last x (2 ^ (7 * i)) (ground arith) (scale_fits k (2 ^ (7 * i)) f)))
  | inr more ↦ rw more (
      ap (λ n. decode_bytes (suc i) (v + n) (encode_bytes (sevens k) (x / 128)))
        (step_marked x (2 ^ (7 * i)) (scale_fits k (2 ^ (7 * i)) f))
      ∙ decode_bytes-encode_bytes k (suc i) (v + x % 128 * 2 ^ (7 * i)) (x / 128) (omega (arith, h))
          (scale_next k i f)
      ∙ sum_scale i v x)
]

-- An unsigned number of 64 bits is decoded from its encoding.
pub decode_uint-encode_uint : (x : ℕ) → x < 2 ^ 64 → decode_uint (encode_uint x) ≡ x
unfolding decode_uint encode_uint
decode_uint-encode_uint x h = decode_bytes-encode_bytes 9 0 0 x h (omega arith) ∙ omega arith

-- A signed number of 64 bits is decoded from its encoding, which flips the bits of the negative ones.
pub decode_int-encode_int : (x : ℕ) → x < 2 ^ 64 → decode_int (encode_int x) ≡ x
unfolding decode_int encode_int
decode_int-encode_int x h =
    ap (λ ux. flip (nat_beq (ux % 2) 1) (ux / 2))
      (decode_uint-encode_uint (flip (leb (2 ^ 63) x) (x * 2 % 2 ^ 64)) (ground arith))
    ∙ ground arith
