-- ===== src/Common/Strconv.antt =====
-- What the code uses of Go's `strconv` and `strings`: decimal numbers of 64 bits, and a split at the
-- first colon.
mod Tests
pub mod RoundTrip
pub mod Fields
use Prim.Native.Nat.{ℕ, zero, suc, ◌+◌, ◌-◌, ◌*◌, ◌/◌, ◌%◌, ◌^◌}
use Prim.Native.Char.{Char, code}
use Prim.Native.String.{String}
use mathlib.Core.Bool.{Bool, true, false, ◌&&◌}
use mathlib.Core.Option.{Option, none, some}
use seven_db.Common.Tests.{ltb, leb, nat_beq, if◌then◌else◌}

-- strconv.ParseUint(s, 10, 64); out of range its value is the largest uint64
pub data Parsed : Type 0 where
  parsed : ℕ → Parsed
  syntax_error : Parsed
  range_error : Parsed

-- the value beside the error
abbrev pub value : Parsed → ℕ
value (parsed n) = n
value syntax_error = 0
value range_error = 2 ^ 64 - 1

unfoldable pub is_digit : ℕ → Bool
is_digit c = leb b'0' c && leb c b'9'

-- the loop over the digits: the first bad character or overflow decides
unfoldable pub parse_digits : ℕ → String → Parsed
parse_digits n String.[] = parsed n
parse_digits n (String.◌∷◌ c s) =
    let m = n * 10 + (code c - 48) in
    let more = parse_digits m s in
    if is_digit (code c) then if ltb m (2 ^ 64) then more else range_error else syntax_error

unfoldable pub parse_uint : String → Parsed
unfolding is_digit parse_digits
parse_uint String.[] = syntax_error
parse_uint (String.◌∷◌ c s) = parse_digits 0 (String.◌∷◌ c s)

unfoldable pub digit : ℕ → Char
digit d =
    if nat_beq d 0
    then "0"
    else if nat_beq d 1
    then "1"
    else if nat_beq d 2
    then "2"
    else if nat_beq d 3
    then "3"
    else if nat_beq d 4
    then "4"
    else if nat_beq d 5
    then "5"
    else if nat_beq d 6
    then "6"
    else if nat_beq d 7
    then "7"
    else if nat_beq d 8
    then "8"
    else "9"

-- a uint64 has at most 20 digits
unfoldable pub format_digits : ℕ → ℕ → String → String
format_digits zero n rest = rest
format_digits (suc fuel) n rest =
    let more = format_digits fuel (n / 10) (String.◌∷◌ (digit (n % 10)) rest) in
    if ltb n 10 then String.◌∷◌ (digit n) rest else more

-- strconv.FormatUint(n, 10)
unfoldable pub format_uint : ℕ → String
unfolding digit format_digits
format_uint n = format_digits 20 n ""

abbrev cons_left : Char → Option (String × String) → Option (String × String)
cons_left c none = none
cons_left c (some (a, b)) = some (String.◌∷◌ c a, b)

-- strings.SplitN(s, ":", 2), where it gives two parts
unfoldable pub split_colon : String → Option (String × String)
split_colon String.[] = none
split_colon (String.◌∷◌ c s) =
    if nat_beq (code c) b':' then some ("", s) else cons_left c (split_colon s)
