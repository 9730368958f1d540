-- ===== src/Prelude/Keys.antt =====
-- Decidable equality as an interface, for the keys of maps.
use Prim.Native.Nat.{ℕ}
use mathlib.Core.Path.{◌≡◌, refl}
use mathlib.Core.Logic.{◌↔◌}
use mathlib.Core.Bool.{Bool, true, false, ◌&&◌}
use mathlib.Core.List.{List, [], ◌∷◌}
use native.Mathlib.Omega.{arith}
use intermcp.Prelude.Tests.{eqb, eqb_iff}

-- The keys of a map: a test for the same key, that is right.
pub record Keyed {ℓ} (K : Type ℓ) : Type ℓ where
  pub same : K → K → Bool
  pub same_iff : (j k : K) → (same j k ≡ true) ↔ (j ≡ k)

module _ {ℓ} {K : Type ℓ} ⦃keyed : Keyed K⦄ where
  infix 50 ◌==◌
  abbrev pub ◌==◌ : (j k : K) → Bool
  j == k = keyed.same j k

  pub ==_iff : (j k : K) → ((j == k) ≡ true) ↔ (j ≡ k)
  ==_iff j k = keyed.same_iff j k

  pub ==_refl : (k : K) → (k == k) ≡ true
  ==_refl k = (==_iff k k).1 refl

-- Two texts are equal, as `==` on `str`.
unfoldable pub text_eq : List ℕ → List ℕ → Bool
text_eq [] [] = true
text_eq (a ∷ s) (b ∷ t) = eqb a b && text_eq s t
text_eq _ _ = false

pub text_eq_iff : (s t : List ℕ) → (text_eq s t ≡ true) ↔ (s ≡ t)
unfolding text_eq
text_eq_iff [] [] = ground arith
text_eq_iff [] (b ∷ t) = ground arith
text_eq_iff (a ∷ s) [] = ground arith
text_eq_iff (a ∷ s) (b ∷ t) = ground (arith, text_eq_iff s t)

instance abbrev pub text_is_eq : Keyed (List ℕ)
text_is_eq = record { same = text_eq; same_iff = text_eq_iff }

instance abbrev pub nat_eq : Keyed ℕ
nat_eq = record { same = eqb; same_iff = eqb_iff }
