-- ===== src/Common/Result.antt =====
-- A function that may raise returns a `Result`: its value, or the error that it raises.
use mathlib.Core.Path.{◌≡◌, refl}
use mathlib.Core.Logic.{◌≢◌, ◌⊎◌, inl, inr}
use mathlib.Core.Bool.{Bool, true, false}

pub data Result {ℓ κ} (E : Type ℓ) (A : Type κ) : Type (ℓ ⊔ κ) where
  ok : A → Result E A
  err : E → Result E A

pub Result-cases {ℓ κ} :
    {E : Type ℓ} {A : Type κ} (r : Result E A)
    → ((value : A) × (r ≡ ok value)) ⊎ ((raised : E) × (r ≡ err raised))
Result-cases (err raised) = inr (raised, refl)
Result-cases (ok value) = inl (value, refl)

-- `if bad: raise raised`
abbrev pub raise_if {ℓ} : {E : Type ℓ} → Bool → E → Result E (Unit {0})
raise_if false raised = ok tt
raise_if true raised = err raised

module _ {ℓ κ ι} {E : Type ℓ} {A : Type κ} {B : Type ι} where
  infixl 5 ◌>>=◌
  -- What follows a call: an error ends the function.
  abbrev pub ◌>>=◌ : Result E A → (A → Result E B) → Result E B
  err raised >>= next = err raised
  ok value >>= next = next value

  -- A chain returns a value only if its first step does.
  pub >>=-eq-ok :
      (first : Result E A) (next : A → Result E B) {result : B}
      → (first >>= next) ≡ ok result
      → (value : A) × (first ≡ ok value) × (next value ≡ ok result)
  >>=-eq-ok (err raised) next returned = cc
  >>=-eq-ok (ok value) next returned = (value, refl, returned)

  -- A chain reports `x` only if one of its steps does.
  pub >>=-ne-err :
      (first : Result E A) (next : A → Result E B) (x : E)
      → first ≢ err x
      → ((value : A) → next value ≢ err x)
      → (first >>= next) ≢ err x
  >>=-ne-err (err raised) next x fresh fresh_next = λ same. fresh (cc same)
  >>=-ne-err (ok value) next x fresh fresh_next = fresh_next value

infixl 5 ◌>>◌
abbrev pub ◌>>◌ {ℓ κ} :
    {E : Type ℓ} {B : Type κ} (first : Result E (Unit {0})) → Result E B → Result E B
first >> second = first >>= (λ done. second)
