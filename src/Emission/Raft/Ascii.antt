-- ===== src/Emission/Raft/Ascii.antt =====
-- The characters of decimal numbers.
use seven_db.Common.{ℕ, zero, suc, ◌/◌, ◌%◌, ◌<◌, ◌≡◌, refl, String, true, arith}
use seven_db.Common.Strconv.{digit, format_digits, format_uint}
use seven_db.Common.Strconv.RoundTrip.{code-digit}
use seven_db.Emission.Raft.{is_ascii}

cons-is_ascii :
    (d : ℕ) (s : String) → d < 10 → is_ascii s ≡ true → is_ascii (String.◌∷◌ (digit d) s) ≡ true
unfolding is_ascii
cons-is_ascii d s h rest = ground (arith, code-digit d h)

is_ascii-format_digits :
    (fuel n : ℕ) (rest : String)
    → is_ascii rest ≡ true
    → is_ascii (format_digits fuel n rest) ≡ true
unfolding format_digits
is_ascii-format_digits zero n rest h = h
is_ascii-format_digits (suc fuel) n rest h = ground (
  arith,
  cons-is_ascii n rest,
  is_ascii-format_digits fuel (n / 10) (String.◌∷◌ (digit (n % 10)) rest)
      (cons-is_ascii (n % 10) rest (omega arith) h),
)

pub is_ascii-format_uint : (n : ℕ) → is_ascii (format_uint n) ≡ true
unfolding format_uint is_ascii
is_ascii-format_uint n = is_ascii-format_digits 20 n "" refl
