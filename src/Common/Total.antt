-- ===== src/Common/Total.antt =====
-- Sums of a measure over a list and over the values of a dict, which do not depend on the order.
use Prim.Native.Nat.{ℕ, ◌+◌, ◌≤◌}
use mathlib.Core.Path.{◌≡◌, refl, ap, ◌∙◌, subst}
use mathlib.Core.Logic.{∥∥₁_elim}
use mathlib.Core.List.{List, [], ◌∷◌, ◌++◌, map, Perm, Permᴰ}
use mathlib.Core.Option.{Option, none, some}
use native.Mathlib.Nat.{ℕ_set}
use native.Mathlib.Omega.{arith}
use aiokpl.Common.Lists.{flat_map, All}
use aiokpl.Common.Eq.{Eq}
use aiokpl.Common.Dict
use aiokpl.Common.Dict.{Dict}

module _ {ℓ} {A : Type ℓ} (m : A → ℕ) where
  abbrev pub total : List A → ℕ
  total [] = 0
  total (x ∷ xs) = m x + total xs

  pub total-append : (xs ys : List A) → total (xs ++ ys) ≡ total xs + total ys
  total-append [] ys = omega arith
  total-append (x ∷ xs) ys = omega (arith, total-append xs ys)

  total-Permᴰ : {xs ys : List A} → Permᴰ xs ys → total xs ≡ total ys
  total-Permᴰ Permᴰ.nil = refl
  total-Permᴰ (Permᴰ.cons e d) = omega (arith, ap m e, total-Permᴰ d)
  total-Permᴰ (Permᴰ.swap e f) = omega (arith, ap m e, ap m f)
  total-Permᴰ (Permᴰ.trans d e) = total-Permᴰ d ∙ total-Permᴰ e

  pub total-Perm : {xs ys : List A} → Perm xs ys → total xs ≡ total ys
  total-Perm {xs} {ys} p = ∥∥₁_elim p (ℕ_set (total xs) (total ys)) total-Permᴰ

module _ {ℓ κ} {A : Type ℓ} {B : Type κ} where
  pub total-map :
      (m : B → ℕ) (f : A → B) (xs : List A) → total m (map f xs) ≡ total (λ x. m (f x)) xs
  total-map m f [] = refl
  total-map m f (x ∷ xs) = omega (arith, total-map m f xs)

  pub total-flat_map :
      (m : B → ℕ) (f : A → List B) (xs : List A)
      → total m (flat_map f xs) ≡ total (λ x. total m (f x)) xs
  total-flat_map m f [] = refl
  total-flat_map m f (x ∷ xs) =
      omega (arith, total-append m (f x) (flat_map f xs), total-flat_map m f xs)

-- The measure of a value that may be there.
abbrev pub measured {ℓ} : {A : Type ℓ} → (A → ℕ) → Option A → ℕ
measured m none = 0
measured m (some x) = m x

module _ {ℓ κ} {K : Type ℓ} {V : Type κ} (m : V → ℕ) where
  -- Over the values of a dict.
  abbrev pub in_all : Dict K V → ℕ
  in_all d = total (λ p. m p.1) d

module _ {ℓ κ} {K : Type ℓ} {V : Type κ} ⦃e : Eq K⦄ (m : V → ℕ) where
  pub in_all-put :
      (k : K) (v : V) (d : Dict K V)
      → in_all m (Dict.put k v d) + measured m (Dict.get k d) ≡ in_all m d + m v
  unfolding Dict.get Dict.put
  in_all-put k v [] = omega arith
  in_all-put k v ((j, w) ∷ d) = ground (arith, in_all-put k v d)

  -- A value that is there is measured in the sum.
  pub in_all-held : (k : K) (v : V) (d : Dict K V) → Dict.get k d ≡ some v → m v ≤ in_all m d
  unfolding Dict.get
  in_all-held k v [] h = cc
  in_all-held k v ((j, w) ∷ d) h = ground (arith, in_all-held k v d)

module _ {ℓ κ} {A : Type ℓ} (P : A → Type κ) (prop : (x : A) → IsProp (P x)) where
  All-prop : (xs : List A) → IsProp (All P xs)
  All-prop [] h k = refl
  All-prop (x ∷ xs) h k = λ i. (prop x h.0 k.0 i, All-prop xs h.1 k.1 i)

  All-Permᴰ : {xs ys : List A} → Permᴰ xs ys → All P xs → All P ys
  All-Permᴰ Permᴰ.nil h = tt
  All-Permᴰ (Permᴰ.cons e d) h = (subst P e h.0, All-Permᴰ d h.1)
  All-Permᴰ (Permᴰ.swap e f) h = (subst P f h.1.0, (subst P e h.0, h.1.1))
  All-Permᴰ (Permᴰ.trans d e) h = All-Permᴰ e (All-Permᴰ d h)

  -- What holds of each item holds of each in any order.
  pub All-Perm : {xs ys : List A} → Perm xs ys → All P xs → All P ys
  All-Perm {xs} {ys} p h = ∥∥₁_elim p (All-prop ys) (λ d. All-Permᴰ d h)
