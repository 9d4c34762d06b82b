-- ===== src/Common/Lists.antt =====
-- Lists measured and indexed by native numbers, under the library's names.
use Prim.Native.Nat.{ℕ, zero, suc, ◌+◌, ◌-◌, ◌≤◌, ◌<◌}
use mathlib.Core.Path.{◌≡◌, refl, ap, sym, ◌∙◌}
use mathlib.Core.List.{List, [], ◌∷◌, ◌++◌, map, append_assoc}
use mathlib.Core.Option.{Option, none, some}
use native.Mathlib.Omega.{arith}

module _ {ℓ} {A : Type ℓ} where
  abbrev pub length : List A → ℕ
  length [] = 0
  length (x ∷ xs) = suc (length xs)

  abbrev pub get_elem? : List A → ℕ → Option A
  get_elem? [] i = none
  get_elem? (x ∷ xs) zero = some x
  get_elem? (x ∷ xs) (suc i) = get_elem? xs i

  abbrev pub take : ℕ → List A → List A
  take zero xs = []
  take (suc n) [] = []
  take (suc n) (x ∷ xs) = x ∷ take n xs

  abbrev pub drop : ℕ → List A → List A
  drop zero xs = xs
  drop (suc n) [] = []
  drop (suc n) (x ∷ xs) = drop n xs

  pub length-append : (xs ys : List A) → length (xs ++ ys) ≡ length xs + length ys
  length-append [] ys = omega arith
  length-append (x ∷ xs) ys = omega (arith, length-append xs ys)

  pub length-take-le : (n : ℕ) (xs : List A) → length (take n xs) ≤ length xs
  length-take-le zero xs = omega arith
  length-take-le (suc n) [] = omega arith
  length-take-le (suc n) (x ∷ xs) = omega (arith, length-take-le n xs)

  pub length-drop : (n : ℕ) (xs : List A) → length (drop n xs) ≡ length xs - n
  length-drop zero xs = omega arith
  length-drop (suc n) [] = omega arith
  length-drop (suc n) (x ∷ xs) = omega (arith, length-drop n xs)

  pub take-append : (xs ys : List A) → take (length xs) (xs ++ ys) ≡ xs
  take-append [] ys = refl
  take-append (x ∷ xs) ys = ap (◌∷◌ x) (take-append xs ys)

  pub drop-append : (xs ys : List A) → drop (length xs) (xs ++ ys) ≡ ys
  drop-append [] ys = refl
  drop-append (x ∷ xs) ys = drop-append xs ys

  pub get_elem?-append_left :
      (xs ys : List A) (i : ℕ) {a : A} → get_elem? xs i ≡ some a → get_elem? (xs ++ ys) i ≡ some a
  get_elem?-append_left [] ys i h = ground arith
  get_elem?-append_left (x ∷ xs) ys zero h = h
  get_elem?-append_left (x ∷ xs) ys (suc i) h = get_elem?-append_left xs ys i h

  pub get_elem?-append_length :
      (xs : List A) (a : A) → get_elem? (xs ++ a ∷ []) (length xs) ≡ some a
  get_elem?-append_length [] a = refl
  get_elem?-append_length (x ∷ xs) a = get_elem?-append_length xs a

  pub get_elem?-lt-length : (xs : List A) (i : ℕ) {a : A} → get_elem? xs i ≡ some a → i < length xs
  get_elem?-lt-length [] i h = ground arith
  get_elem?-lt-length (x ∷ xs) zero h = omega arith
  get_elem?-lt-length (x ∷ xs) (suc i) h = omega (arith, get_elem?-lt-length xs i h)

  -- Every item has the property.
  abbrev pub All {κ} : (A → Type κ) → List A → Type κ
  All P [] = Unit
  All P (x ∷ xs) = P x × All P xs

module _ {ℓ κ} {A : Type ℓ} (P : A → Type κ) where
  pub All-append : (xs ys : List A) → All P xs → All P ys → All P (xs ++ ys)
  All-append [] ys h k = k
  All-append (x ∷ xs) ys h k = (h.0, All-append xs ys h.1 k)

  pub All-append_right : (xs ys : List A) → All P (xs ++ ys) → All P ys
  All-append_right [] ys h = h
  All-append_right (x ∷ xs) ys h = All-append_right xs ys h.1

module _ {ℓ κ} {A : Type ℓ} {B : Type κ} where
  pub length-map : (f : A → B) (xs : List A) → length (map f xs) ≡ length xs
  length-map f [] = refl
  length-map f (x ∷ xs) = ap suc (length-map f xs)

  -- The concatenation of what `f` makes of each item.
  abbrev pub flat_map : (A → List B) → List A → List B
  flat_map f [] = []
  flat_map f (x ∷ xs) = f x ++ flat_map f xs

  pub flat_map-append :
      (f : A → List B) (xs ys : List A) → flat_map f (xs ++ ys) ≡ flat_map f xs ++ flat_map f ys
  flat_map-append f [] ys = refl
  flat_map-append f (x ∷ xs) ys =
      ap (◌++◌ (f x)) (flat_map-append f xs ys)
      ∙ sym (append_assoc (f x) (flat_map f xs) (flat_map f ys))

  -- What is shorter than a bound in all is shorter in each part.
  pub flat_map-All :
      (f : A → List B) (n : ℕ) (xs : List A)
      → length (flat_map f xs) < n
      → All (λ x. length (f x) < n) xs
  flat_map-All f n [] h = tt
  flat_map-All f n (x ∷ xs) h = (
    omega (arith, length-append (f x) (flat_map f xs)),
    flat_map-All f n xs (omega (arith, length-append (f x) (flat_map f xs))),
  )

module _ {ℓ κ ι} {A : Type ℓ} (P : A → Type κ) (Q : A → Type ι) where
  pub All-map : ((x : A) → P x → Q x) → (xs : List A) → All P xs → All Q xs
  All-map f [] h = tt
  All-map f (x ∷ xs) h = (f x h.0, All-map f xs h.1)

module _ {ℓ κ ι η} {A : Type ℓ} (P : A → Type κ) (Q : A → Type ι) (R : A → Type η) where
  pub All-zip : ((x : A) → P x → Q x → R x) → (xs : List A) → All P xs → All Q xs → All R xs
  All-zip f [] h k = tt
  All-zip f (x ∷ xs) h k = (f x h.0 k.0, All-zip f xs h.1 k.1)
