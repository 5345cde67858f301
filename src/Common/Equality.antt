-- ===== src/Common/Equality.antt =====
-- Decidable equality as an interface, with the instances for numbers and texts.
use Prim.Native.Nat.{ℕ}
use Prim.Native.String.{String}
use mathlib.Core.Path.{◌≡◌, refl, subst}
use mathlib.Core.Logic.{◌↔◌}
use mathlib.Core.Bool.{Bool, true, false, ◌&&◌}
use mathlib.Core.List.{List, [], ◌∷◌}
use native.Mathlib.Omega.{arith}
use text.Mathlib.Text.{◌==◌ as str_eq}
use text.Mathlib.TextEquality.{eq_iff}
use backup_management_center.Common.Tests.{nat_beq}

-- A test of equality, with what it decides.
pub record Eq {ℓ} (A : Type ℓ) : Type ℓ where
  pub beq : A → A → Bool
  pub beq_iff : (a b : A) → (beq a b ≡ true) ↔ (a ≡ b)

pub nat_beq_iff : (a b : ℕ) → (nat_beq a b ≡ true) ↔ (a ≡ b)
nat_beq_iff a b = ground arith

instance abbrev pub nat_eq : Eq ℕ
nat_eq = record { beq = nat_beq; beq_iff = nat_beq_iff }

abbrev pub codes_beq : List ℕ → List ℕ → Bool
codes_beq [] [] = true
codes_beq (a ∷ s) (b ∷ t) = nat_beq a b && codes_beq s t
codes_beq _ _ = false

codes_of_beq : (s t : List ℕ) → codes_beq s t ≡ true → s ≡ t
codes_of_beq [] [] h = refl
codes_of_beq [] (b ∷ t) h = absurd (cc)
codes_of_beq (a ∷ s) [] h = absurd (cc)
codes_of_beq (a ∷ s) (b ∷ t) h = ground (arith, codes_of_beq s t)

codes_beq_self : (s : List ℕ) → codes_beq s s ≡ true
codes_beq_self [] = refl
codes_beq_self (a ∷ s) = ground (arith, codes_beq_self s)

pub codes_beq_iff : (s t : List ℕ) → (codes_beq s t ≡ true) ↔ (s ≡ t)
codes_beq_iff s t = (codes_of_beq s t, λ h. subst (λ u. codes_beq s u ≡ true) h (codes_beq_self s))

-- Texts that the program walks through, such as paths, as lists of bytes.
instance abbrev pub codes_eq : Eq (List ℕ)
codes_eq = record { beq = codes_beq; beq_iff = codes_beq_iff }

infix 50 ◌==◌
abbrev pub ◌==◌ {ℓ} : {T : Type ℓ} ⦃e : Eq T⦄ → T → T → Bool
◌==◌ ⦃e⦄ = e.beq

instance abbrev pub string_eq : Eq String
string_eq = record { beq_iff = eq_iff; beq = str_eq }

module _ {ℓ} {A : Type ℓ} ⦃e : Eq A⦄ where
  pub beq_self : (a : A) → (a == a) ≡ true
  beq_self a = (e.beq_iff a a).1 refl
