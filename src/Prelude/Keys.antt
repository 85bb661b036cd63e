-- ===== src/Prelude/Keys.antt =====
-- What a type needs to name the entries of a dictionary, for texts and for numbers.
use Prim.Native.Nat.{ℕ}
use Prim.Native.String.{String}
use mathlib.Core.Path.{◌≡◌, refl}
use mathlib.Core.Logic.{◌↔◌}
use mathlib.Core.Bool.{Bool, true}
use text.Mathlib.Text
use text.Mathlib.TextEquality.{eq_iff}
use adp_pro.Prelude.Tests.{nat_beq, nat_beq_iff}

-- A test, and what it decides.
pub record Key {κ} (K : Type κ) : Type κ where
  pub is_same : K → K → Bool
  pub is_same_iff : (j k : K) → (is_same j k ≡ true) ↔ (j ≡ k)

instance abbrev pub string_eq : Key String
string_eq = record { is_same_iff = eq_iff; is_same = text.Mathlib.Text.◌==◌ }

module _ {κ} {K : Type κ} ⦃key : Key K⦄ where
  infix 50 ◌==◌
  abbrev pub ◌==◌ : K → K → Bool
  j == k = key.is_same j k

  pub beq_refl : (k : K) → (k == k) ≡ true
  beq_refl k = (key.is_same_iff k k).1 refl

instance abbrev pub nat_eq : Key ℕ
nat_eq = record { is_same_iff = nat_beq_iff; is_same = nat_beq }
