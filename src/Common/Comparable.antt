-- ===== src/Common/Comparable.antt =====
-- Go's `==` on the types that serve as map keys.
use Prim.Native.String.{String}
use Prim.Native.Nat.{ℕ}
use mathlib.Core.Bool.{true, Bool}
use mathlib.Core.Logic.{◌↔◌}
use mathlib.Core.Path.{◌≡◌}
use seven_db.Common.Tests.{nat_beq, nat_beq_iff}
use text.Mathlib.TextEquality.{eq_iff as text_eq_iff}
use text.Mathlib.Text.{◌==◌ as text_eq}

-- the constraint `comparable`
pub record Comparable {ℓ} (K : Type ℓ) : Type ℓ where
  pub equal : K → K → Bool
  pub equal_iff : (j k : K) → (equal j k ≡ true) ↔ (j ≡ k)

module _ {ℓ} {K : Type ℓ} ⦃c : Comparable K⦄ where
  infix 50 ◌==◌
  abbrev pub ◌==◌ : K → K → Bool
  j == k = c.equal j k

instance abbrev pub string_key : Comparable String
string_key = record { equal = text_eq; equal_iff = text_eq_iff }

instance abbrev pub nat_key : Comparable ℕ
nat_key = record { equal = nat_beq; equal_iff = nat_beq_iff }
