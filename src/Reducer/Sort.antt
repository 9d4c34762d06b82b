-- ===== src/Reducer/Sort.antt =====
-- `sorted(items, key=...)`: the stable sort of Python, as an insertion from the right that puts an
-- item in front of the items with the same key.
use mathlib.Core.List.{Perm}
use mathlib.Core.List.Perm
use aiokpl.Common.{
  ◌+◌, arith, length, ◌≡◌, refl, true, List, [], ◌∷◌, inl, inr, Bool-cases, All, if◌then◌else◌,
}
use aiokpl.Time.{Deadline, not_later, not_later_trans, not_later_total}

module _ {I : Type 0} (key : I → Deadline) where
  insert : I → List I → List I
  insert x [] = x ∷ []
  insert x (y ∷ ys) = if not_later (key x) (key y) then x ∷ y ∷ ys else y ∷ insert x ys

  unfoldable pub sorted : List I → List I
  unfolding insert
  sorted [] = []
  sorted (x ∷ xs) = insert x (sorted xs)

  insert-perm : (x : I) (ys : List I) → Perm (insert x ys) (x ∷ ys)
  unfolding insert
  insert-perm x [] = Perm.refl (x ∷ [])
  insert-perm x (y ∷ ys) = elim (Bool-cases (not_later (key x) (key y))) [
    | inl e ↦ rw (e, insert) (Perm.refl (x ∷ y ∷ ys))
    | inr e ↦ rw (e, insert) (Perm.trans (Perm.cons y (insert-perm x ys)) (Perm.swap x y ys))
  ]

  pub sorted-perm : (xs : List I) → Perm (sorted xs) xs
  unfolding sorted
  sorted-perm [] = Perm.refl []
  sorted-perm (x ∷ xs) = Perm.trans (insert-perm x (sorted xs)) (Perm.cons x (sorted-perm xs))

  length-insert : (x : I) (ys : List I) → length (insert x ys) ≡ length ys + 1
  unfolding insert
  length-insert x [] = omega arith
  length-insert x (y ∷ ys) = ground (arith, length-insert x ys)

  pub length-sorted : (xs : List I) → length (sorted xs) ≡ length xs
  unfolding sorted
  length-sorted [] = refl
  length-sorted (x ∷ xs) = omega (arith, length-insert x (sorted xs), length-sorted xs)

  -- No item of the list is due before `x`.
  abbrev pub DueAfter : I → List I → Type 0
  DueAfter x ys = All (λ y. not_later (key x) (key y) ≡ true) ys

  -- In order of deadline.
  abbrev pub InOrder : List I → Type 0
  InOrder [] = Unit
  InOrder (x ∷ xs) = DueAfter x xs × InOrder xs

  DueAfter-trans :
      (x y : I) (zs : List I) → not_later (key x) (key y) ≡ true → DueAfter y zs → DueAfter x zs
  DueAfter-trans x y [] h k = tt
  DueAfter-trans x y (z ∷ zs) h k =
      (not_later_trans (key x) (key y) (key z) h k.0, DueAfter-trans x y zs h k.1)

  insert-DueAfter :
      (z x : I) (ys : List I)
      → not_later (key z) (key x) ≡ true
      → DueAfter z ys
      → DueAfter z (insert x ys)
  unfolding insert
  insert-DueAfter z x [] h k = (h, tt)
  insert-DueAfter z x (y ∷ ys) h k = elim (Bool-cases (not_later (key x) (key y))) [
    | inl e ↦ rw (e, insert) (h, k)
    | inr e ↦ rw (e, insert) (k.0, insert-DueAfter z x ys h k.1)
  ]

  insert-InOrder : (x : I) (ys : List I) → InOrder ys → InOrder (insert x ys)
  unfolding insert
  insert-InOrder x [] h = (tt, tt)
  insert-InOrder x (y ∷ ys) h = elim (Bool-cases (not_later (key x) (key y))) [
    | inl e ↦ rw (e, insert) ((e, DueAfter-trans x y ys e h.0), h)
    | inr e ↦
        rw (e, insert)
          (insert-DueAfter y x ys (not_later_total (key x) (key y) e) h.0, insert-InOrder x ys h.1)
  ]

  pub sorted-InOrder : (xs : List I) → InOrder (sorted xs)
  unfolding sorted
  sorted-InOrder [] = tt
  sorted-InOrder (x ∷ xs) = insert-InOrder x (sorted xs) (sorted-InOrder xs)
