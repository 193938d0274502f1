-- ===== src/Bucket/Frame/Tests.antt =====
-- Runs of the checksum and of the layout.
use seven_db.Common.{◌≡◌, refl, [], ◌∷◌}
use seven_db.Bucket.Frame.{checksum}

-- of the nine digits, the check value of the standard
checksum_runs : checksum (49 ∷ 50 ∷ 51 ∷ 52 ∷ 53 ∷ 54 ∷ 55 ∷ 56 ∷ 57 ∷ []) ≡ 3421780262
unfolding checksum
checksum_runs = refl
