-- ===== src/Common/Dict.antt =====
-- A Python dict as an association list in order of insertion: a key that is there keeps its place.
use mathlib.Core.Path.{◌≡◌, refl, subst}
use mathlib.Core.Logic.{inl, inr}
use mathlib.Core.List.{List, [], ◌∷◌, map}
use mathlib.Core.Option.{Option, none, some}
use native.Mathlib.Omega.{arith}
use aiokpl.Common.Tests.{if◌then◌else◌, Bool-cases}
use aiokpl.Common.Eq.{Eq}

abbrev pub Dict {ℓ κ} : Type ℓ → Type κ → Type (ℓ ⊔ κ)
Dict K V = List (K × V)

module _ {ℓ κ} {K : Type ℓ} {V : Type κ} ⦃e : Eq K⦄ where
  -- `d.get(k)`
  unfoldable pub get : K → Dict K V → Option V
  get k [] = none
  get k ((j, v) ∷ d) = if e.equal j k then some v else get k d

  -- `d[k] = v`
  unfoldable pub put : K → V → Dict K V → Dict K V
  put k v [] = (k, v) ∷ []
  put k v ((j, w) ∷ d) = if e.equal j k then (j, v) ∷ d else (j, w) ∷ put k v d

  -- `del d[k]`, `d.pop(k, None)`
  unfoldable pub remove : K → Dict K V → Dict K V
  remove k [] = []
  remove k ((j, w) ∷ d) = let rest = remove k d in if e.equal j k then rest else (j, w) ∷ rest

  pub get-put :
      (k j : K) (v : V) (d : Dict K V)
      → get j (put k v d) ≡ (if e.equal k j then some v else get j d)
  unfolding get put
  get-put k j v [] = refl
  get-put k j v ((i, w) ∷ d) =
      ground (arith, e.equal_iff k j, e.equal_iff i k, e.equal_iff i j, get-put k j v d)

  pub get-remove :
      (k j : K) (d : Dict K V) → get j (remove k d) ≡ (if e.equal k j then none else get j d)
  unfolding get remove
  get-remove k j [] = ground arith
  get-remove k j ((i, w) ∷ d) =
      ground (arith, e.equal_iff k j, e.equal_iff i k, e.equal_iff i j, get-remove k j d)

  -- Every key stands in the list once.
  abbrev pub IsDict : Dict K V → Type (ℓ ⊔ κ)
  IsDict [] = Unit
  IsDict ((k, v) ∷ d) = (get k d ≡ none) × IsDict d

  pub put-IsDict : (k : K) (v : V) (d : Dict K V) → IsDict d → IsDict (put k v d)
  unfolding get put
  put-IsDict k v [] h = (refl, tt)
  put-IsDict k v ((j, w) ∷ d) (fresh, h) =
      ground (arith, e.equal_iff j k, e.equal_iff k j, get-put k j v d, put-IsDict k v d h)

  module _ {ι} (P : V → Type ι) where
    -- Every value has the property.
    abbrev pub AllValues : Dict K V → Type ι
    AllValues [] = Unit
    AllValues ((k, v) ∷ d) = P v × AllValues d

    pub get-AllValues : (k : K) (v : V) (d : Dict K V) → AllValues d → get k d ≡ some v → P v
    unfolding get
    get-AllValues k v [] h found = absurd (cc found)
    get-AllValues k v ((j, w) ∷ d) h found = elim (Bool-cases (e.equal j k)) [
      | inl same ↦ let here : w ≡ v = cc (rw same at found) in subst P here h.0
      | inr other ↦ get-AllValues k v d h.1 (rw other at found)
    ]

    pub put-AllValues : (k : K) (v : V) (d : Dict K V) → P v → AllValues d → AllValues (put k v d)
    unfolding put
    put-AllValues k v [] p h = (p, tt)
    put-AllValues k v ((j, w) ∷ d) p h = elim (Bool-cases (e.equal j k)) [
      | inl same ↦ rw same (p, h.1)
      | inr other ↦ rw other (h.0, put-AllValues k v d p h.1)
    ]

  -- `d.values()`
  pub values : Dict K V → List V
  values d = map (λ p. p.1) d
