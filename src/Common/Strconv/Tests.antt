-- ===== src/Common/Strconv/Tests.antt =====
-- Runs of the number and text routines.
use mathlib.Core.Path.{◌≡◌, refl}
use mathlib.Core.Option.{some}
use seven_db.Common.Strconv.{format_uint, parse_uint, parsed, range_error, split_colon}

strconv_runs :
    (format_uint 18446744073709551615 ≡ "18446744073709551615")
    × (parse_uint "18446744073709551615" ≡ parsed 18446744073709551615)
    × (parse_uint "18446744073709551616x" ≡ range_error)
    × (split_colon "a:b:c" ≡ some ("a", "b:c"))
unfolding format_uint parse_uint split_colon
strconv_runs = (refl, refl, refl, refl)
