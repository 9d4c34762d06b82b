-- ===== src/ShardMap/Bisect.antt =====
-- `bisect.bisect_left`, which `ShardMap.predict` calls, and what it finds in a sorted list.
use aiokpl.Common.{
  ℕ, zero, suc, ◌+◌, ◌/◌, ◌≤◌, ◌<◌, ◌≡◌, refl, inl, inr, Bool, false, Bool-cases, none, some, List,
  [], ◌∷◌, arith, ltb, if◌then◌else◌, length, get_elem?,
}

-- `a[mid] < x`
abbrev pub below : List ℕ → ℕ → ℕ → Bool
below a mid x = elim (get_elem? a mid) [ some v ↦ ltb v x | none ↦ false ]

-- The loop `while lo < hi`: every round halves the distance, so that it is fuel enough.
unfoldable pub bisect_loop : ℕ → List ℕ → ℕ → ℕ → ℕ → ℕ
bisect_loop zero a x lo hi = lo
bisect_loop (suc fuel) a x lo hi =
    let mid = (lo + hi) / 2 in
    let left = bisect_loop fuel a x lo mid in
    let right = bisect_loop fuel a x (mid + 1) hi in
    if ltb lo hi then (if below a mid x then right else left) else lo

unfoldable pub bisect_left : List ℕ → ℕ → ℕ
unfolding bisect_loop
bisect_left a x = bisect_loop (length a) a x 0 (length a)

-- The number of entries below `x` at the front.
abbrev pub front : List ℕ → ℕ → ℕ
front [] x = 0
front (v ∷ a) x = let rest = front a x in if ltb v x then suc rest else 0

-- In order, from a first bound.
abbrev pub Ascending : ℕ → List ℕ → Type 0
Ascending low [] = Unit
Ascending low (v ∷ a) = (low ≤ v) × Ascending v a

front-length : (a : List ℕ) (x : ℕ) → front a x ≤ length a
front-length [] x = omega arith
front-length (v ∷ a) x = ground (arith, front-length a x)

-- In order, all behind the front are at least `x`.
Ascending-front : (low : ℕ) (a : List ℕ) (x : ℕ) → Ascending low a → x ≤ low → front a x ≡ 0
Ascending-front low [] x h k = refl
Ascending-front low (v ∷ a) x h k = ground (arith, h.0)

below-front :
    (low : ℕ) (a : List ℕ) (x mid : ℕ)
    → Ascending low a
    → mid < length a
    → below a mid x ≡ ltb mid (front a x)
below-front low [] x mid h k = absurd (omega arith)
below-front low (v ∷ a) x zero h k = ground arith
below-front low (v ∷ a) x (suc mid) h k = elim (Bool-cases (ltb v x)) [
  | inl e ↦ rw (e, below-front v a x mid h.1 (omega arith)) (ground arith)
  | inr e ↦
      rw (e, below-front v a x mid h.1 (omega arith), Ascending-front v a x h.1 (ground arith))
        (ground arith)
]

bisect_loop-front :
    (fuel low : ℕ) (a : List ℕ) (x lo hi : ℕ)
    → Ascending low a
    → hi ≤ length a
    → lo ≤ front a x
    → front a x ≤ hi
    → hi ≤ lo + fuel
    → bisect_loop fuel a x lo hi ≡ front a x
unfolding bisect_loop
bisect_loop-front zero low a x lo hi s k h1 h2 f = omega arith
bisect_loop-front (suc fuel) low a x lo hi s k h1 h2 f =
    let mid = (lo + hi) / 2 in
    elim (Bool-cases (ltb lo hi)) [
      | inl e ↦
          let less : lo < hi = ground arith in
          let at_mid = below-front low a x mid s (omega arith) in
          elim (Bool-cases (below a mid x)) [
            | inl b ↦
                rw (e, b)
                  (bisect_loop-front fuel low a x (mid + 1) hi s k (ground (arith, at_mid)) h2
                    (omega arith))
            | inr b ↦
                rw (e, b)
                  (bisect_loop-front fuel low a x lo mid s (omega arith) h1 (ground (arith, at_mid))
                    (omega arith))
          ]
      | inr e ↦ rw e (ground arith)
    ]

-- In a list in order `bisect_left` finds how many entries at the front are below `x`, with fuel for
-- as many rounds as the list is long.
pub bisect_left-front :
    (low : ℕ) (a : List ℕ) (x : ℕ) → Ascending low a → bisect_left a x ≡ front a x
unfolding bisect_left
bisect_left-front low a x s =
    bisect_loop-front (length a) low a x 0 (length a) s (omega arith) (omega arith)
      (front-length a x) (omega arith)
