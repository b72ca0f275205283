-- ===== src/Base/Equality.antt =====
-- Decidable equality as an interface: `operator==` of the key types.
use text.Mathlib.Text.{◌==◌ as str_eq}
use text.Mathlib.TextEquality.{eq_iff}
use Prim.Native.Nat.{ℕ}
use Prim.Native.String.{String}
use mathlib.Core.Path.{◌≡◌, refl}
use mathlib.Core.Logic.{◌↔◌}
use mathlib.Core.Bool.{Bool, true}
use swarm_db.Base.Tests.{eqb, eqb_iff}

-- The test and what its outcome says.
pub record Eq {κ} (T : Type κ) : Type κ where
  pub equal : T → T → Bool
  pub equal_iff : (x y : T) → (equal x y ≡ true) ↔ (x ≡ y)

infix 50 ◌==◌
abbrev pub ◌==◌ {ℓ} : {A : Type ℓ} ⦃e : Eq A⦄ → A → A → Bool
◌==◌ ⦃e⦄ = e.equal

module _ {ℓ} {A : Type ℓ} ⦃e : Eq A⦄ where
  pub ==_iff : (a b : A) → ((a == b) ≡ true) ↔ (a ≡ b)
  ==_iff = e.equal_iff

  pub ==_refl : (a : A) → (a == a) ≡ true
  ==_refl a = (e.equal_iff a a).1 refl

instance abbrev pub nat_eq : Eq ℕ
nat_eq = record { equal = eqb; equal_iff = eqb_iff }

instance abbrev pub string_eq : Eq String
string_eq = record { equal = str_eq; equal_iff = eq_iff }
