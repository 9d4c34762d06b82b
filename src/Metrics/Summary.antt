-- ===== src/Metrics/Summary.antt =====
-- What a list of observations says: the reference for the rolling window.
use aiokpl.Common.{
  ℕ, ◌+◌, ◌≡◌, refl, ap, Option, none, some, List, [], ◌∷◌, ◌++◌, arith, ltb, if◌then◌else◌, length,
  length-append,
}
use aiokpl.Metrics.Window.{Bucket, lower, higher, observe, seconds}

-- An observation: the clock's time and the value.
abbrev pub Observation : Type 0
Observation = ℕ × ℕ

-- The values observed in the last `window` seconds before the end of the second of `now`.
abbrev pub live : ℕ → ℕ → List Observation → List ℕ
live window now [] = []
live window now ((time, value) ∷ h) =
    if ltb (seconds time + window) (seconds now + 1)
    then live window now h
    else value ∷ live window now h

abbrev pub sum_of : List ℕ → ℕ
sum_of [] = 0
sum_of (v ∷ vs) = v + sum_of vs

abbrev pub least : List ℕ → Option ℕ
least [] = none
least (v ∷ vs) = lower (some v) (least vs)

abbrev pub greatest : List ℕ → Option ℕ
greatest [] = none
greatest (v ∷ vs) = higher (some v) (greatest vs)

abbrev pub summary : List ℕ → Bucket
summary vs = record { count = length vs; sum = sum_of vs; min = least vs; max = greatest vs }

-- The summary of the live values, if there are any.
abbrev pub reference : List ℕ → Option Bucket
reference [] = none
reference (v ∷ vs) = some (summary (v ∷ vs))

pub lower_assoc : (v : ℕ) (x y : Option ℕ) → lower (lower (some v) x) y ≡ lower (some v) (lower x y)
lower_assoc v none none = refl
lower_assoc v none (some b) = refl
lower_assoc v (some a) none = ground arith
lower_assoc v (some a) (some b) = ground arith

pub higher_assoc :
    (v : ℕ) (x y : Option ℕ) → higher (higher (some v) x) y ≡ higher (some v) (higher x y)
higher_assoc v none none = refl
higher_assoc v none (some b) = refl
higher_assoc v (some a) none = ground arith
higher_assoc v (some a) (some b) = ground arith

lower_swap :
    (u v : ℕ) (x : Option ℕ) → lower (some u) (lower (some v) x) ≡ lower (some v) (lower (some u) x)
lower_swap u v none = ground arith
lower_swap u v (some a) = ground arith

higher_swap :
    (u v : ℕ) (x : Option ℕ)
    → higher (some u) (higher (some v) x) ≡ higher (some v) (higher (some u) x)
higher_swap u v none = ground arith
higher_swap u v (some a) = ground arith

pub Bucket-ext :
    (a b : Bucket) → a.count ≡ b.count → a.sum ≡ b.sum → a.min ≡ b.min → a.max ≡ b.max → a ≡ b
Bucket-ext a b c s lo hi = rw (c, s, lo, hi) refl

least-append : (v : ℕ) (vs : List ℕ) → least (vs ++ v ∷ []) ≡ lower (some v) (least vs)
least-append v [] = refl
least-append v (u ∷ vs) = rw (least-append v vs) (lower_swap u v (least vs))

greatest-append : (v : ℕ) (vs : List ℕ) → greatest (vs ++ v ∷ []) ≡ higher (some v) (greatest vs)
greatest-append v [] = refl
greatest-append v (u ∷ vs) = rw (greatest-append v vs) (higher_swap u v (greatest vs))

sum_of-append : (v : ℕ) (vs : List ℕ) → sum_of (vs ++ v ∷ []) ≡ sum_of vs + v
sum_of-append v [] = omega arith
sum_of-append v (u ∷ vs) = omega (arith, sum_of-append v vs)

pub reference-append :
    (v : ℕ) (vs : List ℕ) → reference (vs ++ v ∷ []) ≡ some (observe v (summary vs))
unfolding observe
reference-append v [] = ap some (Bucket-ext _ _ (omega arith) (omega arith) refl refl)
reference-append v (u ∷ vs) = ap some (
    Bucket-ext _ _ (omega (arith, length-append vs (v ∷ []))) (omega (arith, sum_of-append v vs))
      (least-append v (u ∷ vs)) (greatest-append v (u ∷ vs)))

pub live-append : (w t : ℕ) (h k : List Observation) → live w t (h ++ k) ≡ live w t h ++ live w t k
live-append w t [] k = refl
live-append w t ((s, v) ∷ h) k = ground (arith, live-append w t h k)
