-- ===== src/Common/Strconv/RoundTrip.antt =====
-- Decimal numbers written and read back.
use Prim.Native.Nat.{zero, suc, ◌+◌, ◌-◌, ◌*◌, ◌/◌, ◌%◌, ◌^◌, ◌<◌, ℕ}
use Prim.Native.Char.{code}
use Prim.Native.String.{String}
use mathlib.Core.Path.{◌≡◌, refl, ap, ◌∙◌}
use mathlib.Core.Bool.{Bool, true, false}
use mathlib.Core.Logic.{inl, inr}
use native.Mathlib.Omega.{arith}
use seven_db.Common.Tests.{ltb, Bool-cases}
use seven_db.Common.Strconv.{
  parsed, is_digit, parse_digits, parse_uint, digit, format_digits, format_uint,
}

-- 10 ^ n
abbrev tens : ℕ → ℕ
tens zero = 1
tens (suc n) = 10 * tens n

pub code-digit : (d : ℕ) → d < 10 → code (digit d) ≡ 48 + d
unfolding digit
code-digit zero h = refl
code-digit (suc zero) h = refl
code-digit (suc (suc zero)) h = refl
code-digit (suc (suc (suc zero))) h = refl
code-digit (suc (suc (suc (suc zero)))) h = refl
code-digit (suc (suc (suc (suc (suc zero))))) h = refl
code-digit (suc (suc (suc (suc (suc (suc zero)))))) h = refl
code-digit (suc (suc (suc (suc (suc (suc (suc zero))))))) h = refl
code-digit (suc (suc (suc (suc (suc (suc (suc (suc zero)))))))) h = refl
code-digit (suc (suc (suc (suc (suc (suc (suc (suc (suc zero))))))))) h = refl
code-digit (suc (suc (suc (suc (suc (suc (suc (suc (suc (suc d)))))))))) h = absurd (omega arith)

ltb-true : (a b : ℕ) → a < b → ltb a b ≡ true
ltb-true a b h = ground arith

is_digit-digit : (d : ℕ) → d < 10 → is_digit (48 + d) ≡ true
unfolding is_digit
is_digit-digit d h = ground arith

back : (n d : ℕ) → n * 10 + (48 + d - 48) ≡ n * 10 + d
back n d = omega arith

parse_digits-digit :
    (n d : ℕ) (s : String)
    → d < 10
    → n * 10 + d < 2 ^ 64
    → parse_digits n (String.◌∷◌ (digit d) s) ≡ parse_digits (n * 10 + d) s
unfolding parse_digits
parse_digits-digit n d s h bound =
    rw (code-digit d h, is_digit-digit d h, back n d, ltb-true (n * 10 + d) (2 ^ 64) bound)

last_digit :
    (n : ℕ) (rest : String)
    → n < 2 ^ 64
    → parse_digits (n / 10) (String.◌∷◌ (digit (n % 10)) rest) ≡ parse_digits n rest
last_digit n rest bound =
    parse_digits-digit (n / 10) (n % 10) rest (omega arith) (omega arith)
    ∙ ap (λ m. parse_digits m rest) (omega arith)

first_digit :
    (n : ℕ) (rest : String)
    → n < 10
    → parse_digits 0 (String.◌∷◌ (digit n) rest) ≡ parse_digits n rest
first_digit n rest small =
    parse_digits-digit 0 n rest small (omega arith) ∙ ap (λ m. parse_digits m rest) (omega arith)

-- the digits of `n` before `rest` read as `n`, and then `rest`
parse_digits-format_digits :
    (fuel n : ℕ) (rest : String)
    → n < 10 * tens fuel
    → n < 2 ^ 64
    → parse_digits 0 (format_digits (suc fuel) n rest) ≡ parse_digits n rest
unfolding format_digits
parse_digits-format_digits zero n rest h bound = elim (Bool-cases (ltb n 10)) [
  | inl small ↦ rw small (first_digit n rest (ground arith))
  | inr large ↦ absurd (ground arith)
]
parse_digits-format_digits (suc fuel) n rest h bound = elim (Bool-cases (ltb n 10)) [
  | inl small ↦ rw small (first_digit n rest (ground arith))
  | inr large ↦ rw large (
      parse_digits-format_digits fuel (n / 10) (String.◌∷◌ (digit (n % 10)) rest) (omega arith)
        (omega arith)
      ∙ last_digit n rest bound)
]

-- a number has a first digit
abbrev starts : String → Bool
starts String.[] = false
starts (String.◌∷◌ c s) = true

starts-format_digits :
    (fuel n : ℕ) (rest : String) → starts rest ≡ true → starts (format_digits fuel n rest) ≡ true
unfolding format_digits
starts-format_digits zero n rest h = h
starts-format_digits (suc fuel) n rest h =
    ground (arith, starts-format_digits fuel (n / 10) (String.◌∷◌ (digit (n % 10)) rest) refl)

starts-format_uint : (n : ℕ) → starts (format_uint n) ≡ true
unfolding format_uint format_digits
starts-format_uint n =
    ground (arith, starts-format_digits 19 (n / 10) (String.◌∷◌ (digit (n % 10)) "") refl)

parse_uint-starts : (s : String) → starts s ≡ true → parse_uint s ≡ parse_digits 0 s
unfolding parse_uint
parse_uint-starts String.[] h = absurd (ground arith)
parse_uint-starts (String.◌∷◌ c s) h = refl

-- Twenty digits are enough.
pub parse_uint-format_uint : (n : ℕ) → n < 2 ^ 64 → parse_uint (format_uint n) ≡ parsed n
unfolding format_uint parse_digits
parse_uint-format_uint n h =
    parse_uint-starts (format_uint n) (starts-format_uint n)
    ∙ parse_digits-format_digits 19 n "" (omega arith) h
