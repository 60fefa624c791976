-- ===== src/Prelude/Equality.antt =====
-- Python's `==` on the types whose values serve as keys.
use Prim.Native.Nat.{ℕ}
use mathlib.Core.Path.{◌≡◌, refl, ap₂}
use mathlib.Core.Logic.{◌↔◌}
use mathlib.Core.Bool.{Bool, true, false, ◌&&◌}
use mathlib.Core.List.{List, [], ◌∷◌}
use native.Mathlib.Omega.{arith}
use capturemate_ai.Prelude.Tests.{eqb, eqb_iff, &&-left, &&-right}

pub record Eq {ℓ} (Key : Type ℓ) : Type ℓ where
  pub equal : Key → Key → Bool
  pub equal_iff : (x y : Key) → (equal x y ≡ true) ↔ (x ≡ y)

infix 50 ◌==◌
abbrev pub ◌==◌ {ℓ} : {A : Type ℓ} ⦃e : Eq A⦄ → A → A → Bool
◌==◌ ⦃e⦄ = e.equal

instance abbrev pub nat_eq : Eq ℕ
nat_eq = record { equal = eqb; equal_iff = eqb_iff }

-- A Python text is the list of its code points.
abbrev pub Str : Type 0
Str = List ℕ

abbrev pub str_eqb : Str → Str → Bool
str_eqb [] [] = true
str_eqb (a ∷ s) (b ∷ t) = eqb a b && str_eqb s t
str_eqb _ _ = false

pub str_eqb_sound : (s t : Str) → str_eqb s t ≡ true → s ≡ t
str_eqb_sound [] [] h = refl
str_eqb_sound [] (b ∷ t) h = cc
str_eqb_sound (a ∷ s) [] h = cc
str_eqb_sound (a ∷ s) (b ∷ t) h =
    ap₂ ◌∷◌ ((eqb_iff a b).0 (&&-left _ (str_eqb s t) h))
      (str_eqb_sound s t (&&-right (eqb a b) _ h))

str_eqb_refl : (s : Str) → str_eqb s s ≡ true
str_eqb_refl [] = refl
str_eqb_refl (a ∷ s) = ground (arith, str_eqb_refl s)

pub str_eqb_iff : (s t : Str) → (str_eqb s t ≡ true) ↔ (s ≡ t)
str_eqb_iff s t = (str_eqb_sound s t, λ e. rw (← e) (str_eqb_refl s))

instance abbrev pub str_eq : Eq Str
str_eq = record { equal = str_eqb; equal_iff = str_eqb_iff }
