-- ===== src/Common/Eq.antt =====
-- Equality as the program's `==`, on numbers, texts and optional numbers.
use Prim.Native.Nat.{ℕ}
use mathlib.Core.Path.{◌≡◌}
use mathlib.Core.Logic.{◌↔◌}
use mathlib.Core.Bool.{Bool, true, false, ◌&&◌}
use mathlib.Core.List.{List, [], ◌∷◌}
use mathlib.Core.Option.{Option, none, some}
use native.Mathlib.Omega.{arith}
use aiokpl.Common.Tests.{◌==◌ as nat_eq, ==_iff as nat_eq_iff}

-- `==` on a type, and that it decides equality.
pub record Eq {ℓ} (K : Type ℓ) : Type ℓ where
  pub equal : K → K → Bool
  pub equal_iff : (x y : K) → (equal x y ≡ true) ↔ (x ≡ y)

module _ {ℓ} {A : Type ℓ} ⦃e : Eq A⦄ where
  abbrev pub list_beq : List A → List A → Bool
  list_beq [] [] = true
  list_beq (x ∷ xs) (y ∷ ys) = e.equal x y && list_beq xs ys
  list_beq _ _ = false

  pub list_beq_iff : (xs ys : List A) → (list_beq xs ys ≡ true) ↔ (xs ≡ ys)
  list_beq_iff [] [] = ground arith
  list_beq_iff [] (y ∷ ys) = ground arith
  list_beq_iff (x ∷ xs) [] = ground arith
  list_beq_iff (x ∷ xs) (y ∷ ys) = ground (arith, e.equal_iff x y, list_beq_iff xs ys)

  abbrev pub option_beq : Option A → Option A → Bool
  option_beq none none = true
  option_beq (some x) (some y) = e.equal x y
  option_beq _ _ = false

  pub option_beq_iff : (x y : Option A) → (option_beq x y ≡ true) ↔ (x ≡ y)
  option_beq_iff none none = ground arith
  option_beq_iff none (some y) = ground arith
  option_beq_iff (some x) none = ground arith
  option_beq_iff (some x) (some y) = ground (arith, e.equal_iff x y)

instance abbrev pub list_Eq {ℓ} : {A : Type ℓ} ⦃e : Eq A⦄ → Eq (List A)
list_Eq = record { equal = list_beq; equal_iff = list_beq_iff }

instance abbrev pub option_Eq {ℓ} : {A : Type ℓ} ⦃e : Eq A⦄ → Eq (Option A)
option_Eq = record { equal = option_beq; equal_iff = option_beq_iff }

instance abbrev pub nat_Eq : Eq ℕ
nat_Eq = record { equal_iff = nat_eq_iff; equal = nat_eq }
