-- ===== src/Dencoding.antt =====
-- internal/dencoding/int.go. A byte is a number below 256. A buffer that is filled from its end is
-- listed from its end. `|` of numbers without a common bit is their sum, and `&` with a mask of low
-- bits is the remainder.
pub mod RoundTrip
pub mod InPlace
mod Tests
use seven_db.Common.{
  ℕ, zero, suc, ◌+◌, ◌-◌, ◌*◌, ◌/◌, ◌%◌, ◌^◌, Bool, true, false, Option, none, some, List, [], ◌∷◌,
  if◌then◌else◌, nat_beq, leb, ltb,
}

-- getLSB of byte(x)
abbrev pub get_lsb : ℕ → ℕ → ℕ
get_lsb x n = x % 256 % 2 ^ n

-- bitShifts, of which `sevens k` is the end after 9 - k of them
abbrev pub sevens : ℕ → List ℕ
sevens zero = 1 ∷ []
sevens (suc k) = 7 ∷ sevens k

abbrev pub bit_shifts : List ℕ
bit_shifts = sevens 9

-- with the continuation bit
abbrev pub marked : ℕ → ℕ → ℕ
marked x s = get_lsb x s + 128

-- the loop of EncodeUInt; the last byte loses its continuation bit
unfoldable pub encode_bytes : List ℕ → ℕ → List ℕ
encode_bytes [] x = 0 ∷ []
encode_bytes (s ∷ ss) x =
    let rest = encode_bytes ss (x / 2 ^ s) in
    if nat_beq (x / 2 ^ s) 0 then (marked x s % 128) ∷ [] else marked x s ∷ rest

unfoldable pub encode_uint : ℕ → List ℕ
encode_uint x = encode_bytes bit_shifts x

-- the loop of DecodeUInt from the byte `i` on
unfoldable pub decode_bytes : ℕ → ℕ → List ℕ → ℕ
decode_bytes i v [] = v
decode_bytes i v (b ∷ bs) = decode_bytes (suc i) (v + get_lsb b 7 * 2 ^ (7 * i) % 2 ^ 64) bs

unfoldable pub decode_uint : List ℕ → ℕ
decode_uint bs = decode_bytes 0 0 bs

-- the 64 bits of `y`, all of them flipped by the sign
abbrev pub flip : Bool → ℕ → ℕ
flip false y = y
flip true y = 2 ^ 64 - 1 - y

-- An int64 is the number that its 64 bits make; from 2^63 on it is negative.
unfoldable pub encode_int : ℕ → List ℕ
encode_int x = encode_uint (flip (leb (2 ^ 63) x) (x * 2 % 2 ^ 64))

unfoldable pub decode_int : List ℕ → ℕ
decode_int bs = let ux = decode_uint bs in flip (nat_beq (ux % 2) 1) (ux / 2)

-- the loop of EncodeUIntRevInPlace, or none where an index is out of range
unfoldable pub fill : List ℕ → ℕ → List ℕ → Option (List ℕ)
fill [] x buf = some buf
fill (s ∷ ss) x [] = none
fill (s ∷ ss) x (b ∷ buf) =
    let rest = fill ss (x / 2 ^ s) buf in
    if nat_beq (x / 2 ^ s) 0
    then some (marked x s ∷ buf)
    else elim rest [ none ↦ none | some filled ↦ some (marked x s ∷ filled) ]

-- the termination bit, in the byte that the buffer begins with
unfoldable pub terminate : List ℕ → List ℕ
terminate [] = []
terminate (b ∷ []) = (b % 128) ∷ []
terminate (b ∷ c ∷ buf) = b ∷ terminate (c ∷ buf)

-- the line after the loop, where the loop ended
abbrev pub terminated : Option (List ℕ) → Option (List ℕ)
terminated none = none
terminated (some filled) = some (terminate filled)

unfoldable pub encode_uint_rev_in_place : ℕ → List ℕ → Option (List ℕ)
encode_uint_rev_in_place x buf = terminated (fill bit_shifts x buf)

-- DecodeUIntRev; vint[len(vint)-i-1] is the byte `i` from the end
unfoldable pub decode_uint_rev : List ℕ → ℕ
decode_uint_rev bs = decode_bytes 0 0 bs

unfoldable pub get_encode_uint_size : ℕ → ℕ
get_encode_uint_size x =
    if leb x 127
    then 1
    else if ltb x 16383
    then 2
    else if ltb x 2097151
    then 3
    else if ltb x 268435455
    then 4
    else 5
