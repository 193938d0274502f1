-- ===== src/Emission/Outbox/Sort.antt =====
-- `sort.Ints` over commit indices converted by `int(k)`, and back by `uint64(i)`. The conversion
-- keeps the 64 bits, so an index from 2 ^ 63 on is a negative integer and sorts first.
use seven_db.Common.{ℕ, ◌+◌, ◌%◌, ◌^◌, List, [], ◌∷◌, if◌then◌else◌, leb}

-- the order of the int64 values, as an order of numbers
abbrev pub int_rank : ℕ → ℕ
int_rank k = (k + 2 ^ 63) % 2 ^ 64

unfoldable pub insert_int : ℕ → List ℕ → List ℕ
insert_int k [] = k ∷ []
insert_int k (j ∷ js) = if leb (int_rank k) (int_rank j) then k ∷ j ∷ js else j ∷ insert_int k js

unfoldable pub sort_ints : List ℕ → List ℕ
unfolding insert_int
sort_ints [] = []
sort_ints (k ∷ ks) = insert_int k (sort_ints ks)
