-- ===== src/Dencoding/Tests.antt =====
-- Runs of the encodings, and their theorems at concrete numbers.
use seven_db.Common.{
  ℕ, ◌+◌, ◌-◌, ◌^◌, ◌≡◌, refl, some, List, [], ◌∷◌, arith, if◌then◌else◌, ◌||◌, nat_beq,
}
use seven_db.Common.Lists.{length}
use seven_db.Dencoding.{
  encode_uint, decode_uint, encode_int, encode_bytes, encode_uint_rev_in_place, decode_uint_rev,
  get_encode_uint_size,
}
use seven_db.Dencoding.RoundTrip.{decode_uint-encode_uint}
use seven_db.Dencoding.InPlace.{
  zeros, decode_uint_rev-encode_uint_rev_in_place, get_encode_uint_size-encode_uint,
}

encode_uint_runs : encode_uint 300 ≡ 172 ∷ 2 ∷ []
unfolding encode_uint encode_bytes
encode_uint_runs = refl

-- -3
encode_int_runs : encode_int (2 ^ 64 - 3) ≡ 5 ∷ []
unfolding encode_int encode_uint encode_bytes
encode_int_runs = refl

decode_uint-encode_uint_example :
    decode_uint (encode_uint 18446744073709551615) ≡ 18446744073709551615
decode_uint-encode_uint_example = decode_uint-encode_uint 18446744073709551615 (omega arith)

decode_uint_rev-encode_uint_rev_in_place_example :
    (w : List ℕ) × (encode_uint_rev_in_place 16383 (zeros (get_encode_uint_size 16383)) ≡ some w)
    × (decode_uint_rev w ≡ 16383)
decode_uint_rev-encode_uint_rev_in_place_example =
    decode_uint_rev-encode_uint_rev_in_place 16383 (omega arith)

get_encode_uint_size-encode_uint_example :
    get_encode_uint_size 16383
    ≡ length (encode_uint 16383)
      + (if nat_beq 16383 16383 || nat_beq 16383 2097151 || nat_beq 16383 268435455 then 1 else 0)
get_encode_uint_size-encode_uint_example = get_encode_uint_size-encode_uint 16383 (omega arith)
