-- ===== src/Common/Keys.antt =====
-- The keys of a dict, by any measure of them, through a put of a new key and a removal.
use Prim.Native.Nat.{ℕ, ◌+◌}
use mathlib.Core.Path.{◌≡◌, refl, ap, sym, ◌∙◌}
use mathlib.Core.Logic.{inl, inr}
use mathlib.Core.List.{[], ◌∷◌}
use mathlib.Core.Option.{Option, none, some}
use native.Mathlib.Omega.{arith}
use aiokpl.Common.Tests.{if◌then◌else◌, Bool-cases}
use aiokpl.Common.Eq.{Eq}
use aiokpl.Common.Dict
use aiokpl.Common.Dict.{Dict, IsDict}
use aiokpl.Common.Total.{total}

module _ {ℓ κ} {K : Type ℓ} {V : Type κ} (m : K → ℕ) where
  abbrev pub of_keys : Dict K V → ℕ
  of_keys d = total (λ e. m e.0) d

-- One, if there is a value.
abbrev pub counted {ℓ} : {V : Type ℓ} → Option V → ℕ
counted none = 0
counted (some v) = 1

-- The measure that counts one key.
abbrev pub only {ℓ} : {K : Type ℓ} ⦃e : Eq K⦄ → K → K → ℕ
only ⦃e⦄ k j = if e.equal j k then 1 else 0

module _ {ℓ κ} {K : Type ℓ} {V : Type κ} ⦃e : Eq K⦄ where
  pub of_keys-put :
      (m : K → ℕ) (k : K) (v : V) (d : Dict K V)
      → Dict.get k d ≡ none
      → of_keys m (Dict.put k v d) ≡ of_keys m d + m k
  unfolding Dict.get Dict.put
  of_keys-put m k v [] h = omega arith
  of_keys-put m k v ((j, w) ∷ d) h = ground (arith, of_keys-put m k v d)

  -- What is not there is not removed.
  remove-absent : (k : K) (d : Dict K V) → Dict.get k d ≡ none → Dict.remove k d ≡ d
  unfolding Dict.get Dict.remove
  remove-absent k [] h = refl
  remove-absent k ((j, w) ∷ d) h = ground (arith, remove-absent k d)

  pub of_keys-remove :
      (m : K → ℕ) (k : K) (v : V) (d : Dict K V)
      → IsDict d
      → Dict.get k d ≡ some v
      → of_keys m (Dict.remove k d) + m k ≡ of_keys m d
  unfolding Dict.get Dict.remove
  of_keys-remove m k v [] u h = cc
  of_keys-remove m k v ((j, w) ∷ d) (fresh, u) h = elim (Bool-cases (e.equal j k)) [
    | inl same ↦
        let there = (e.equal_iff j k).0 same in
        let gone = ap (λ i. Dict.get i d) (sym there) ∙ fresh in
        rw same (omega (arith, ap (of_keys m) (remove-absent k d gone), ap m there))
    | inr other ↦ rw other (omega (arith, of_keys-remove m k v d u (rw other at h)))
  ]

  pub remove-IsDict : (k : K) (d : Dict K V) → IsDict d → IsDict (Dict.remove k d)
  unfolding Dict.get Dict.remove
  remove-IsDict k [] u = tt
  remove-IsDict k ((j, w) ∷ d) (fresh, u) =
      ground (arith, remove-IsDict k d u, Dict.get-remove k j d)

  of_keys-absent : (k : K) (d : Dict K V) → Dict.get k d ≡ none → of_keys (only k) d ≡ 0
  unfolding Dict.get
  of_keys-absent k [] h = refl
  of_keys-absent k ((j, w) ∷ d) h = ground (arith, of_keys-absent k d)

  -- Of a key the dict counts one, if it has a value for it.
  pub of_keys-only : (k : K) (d : Dict K V) → IsDict d → of_keys (only k) d ≡ counted (Dict.get k d)
  unfolding Dict.get
  of_keys-only k [] u = refl
  of_keys-only k ((j, w) ∷ d) (fresh, u) = elim (Bool-cases (e.equal j k)) [
    | inl same ↦
        let gone = ap (λ i. Dict.get i d) (sym ((e.equal_iff j k).0 same)) ∙ fresh in
        rw same (omega (arith, of_keys-absent k d gone))
    | inr other ↦ rw other (omega (arith, of_keys-only k d u))
  ]
