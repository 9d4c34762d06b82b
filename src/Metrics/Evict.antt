-- ===== src/Metrics/Evict.antt =====
-- How eviction and the bucket of a new observation meet.
use aiokpl.Common.{
  ℕ, ◌+◌, ◌≤◌, ◌≡◌, refl, inl, inr, true, false, Bool-cases, some, List, [], ◌∷◌, arith, ltb, ◌==◌,
  All,
}
use aiokpl.Metrics.Window.{
  Bucket, new_bucket, lower, higher, observe, seconds, evict, put_last, total, stats_of,
}
use aiokpl.Metrics.Summary.{summary, reference, lower_assoc, higher_assoc, Bucket-ext}

pub evict-evict :
    (w s t : ℕ) (bs : List (ℕ × Bucket)) → s ≤ t → evict w t (evict w s bs) ≡ evict w t bs
unfolding evict
evict-evict w s t [] h = refl
evict-evict w s t ((q, b) ∷ bs) h = ground (arith, evict-evict w s t bs h)

pub total-put_last :
    (acc : Bucket) (s v : ℕ) (bs : List (ℕ × Bucket))
    → total acc (put_last s v bs) ≡ observe v (total acc bs)
unfolding total put_last observe
total-put_last acc s v [] = Bucket-ext _ _ (omega arith) (omega arith) refl refl
total-put_last acc s v ((q, b) ∷ []) = elim (Bool-cases (q == s)) [
  | inl e ↦ rw e (
      Bucket-ext _ _ (omega arith) (omega arith) (lower_assoc v b.min acc.min)
        (higher_assoc v b.max acc.max))
  | inr e ↦ rw e (Bucket-ext _ _ (omega arith) (omega arith) refl refl)
]
total-put_last acc s v ((q, b) ∷ y ∷ bs) =
    total-put_last
      record {
        count = acc.count + b.count;
        sum = acc.sum + b.sum;
        min = lower b.min acc.min;
        max = higher b.max acc.max;
      }
      s v (y ∷ bs)

-- An observation of a second that is still live at `t` is put behind what is live at `t`.
pub evict-put_last :
    (w s t v : ℕ) (bs : List (ℕ × Bucket))
    → ltb (s + w) (t + 1) ≡ false
    → evict w t (put_last s v bs) ≡ put_last s v (evict w t bs)
unfolding evict put_last
evict-put_last w s t v [] h = rw h refl
evict-put_last w s t v ((q, b) ∷ []) h = ground arith
evict-put_last w s t v ((q, b) ∷ y ∷ bs) h = elim (Bool-cases (ltb (q + w) (t + 1))) [
  | inl e ↦ rw e (evict-put_last w s t v (y ∷ bs) h)
  | inr e ↦ rw e refl
]

abbrev pub AreUpTo : ℕ → List (ℕ × Bucket) → Type 0
AreUpTo s = All (λ p. p.0 ≤ s)

pub AreUpTo-evict : (w s t : ℕ) (bs : List (ℕ × Bucket)) → AreUpTo s bs → AreUpTo s (evict w t bs)
unfolding evict
AreUpTo-evict w s t [] h = tt
AreUpTo-evict w s t ((q, b) ∷ bs) h = elim (Bool-cases (ltb (q + w) (t + 1))) [
  | inl e ↦ rw e (AreUpTo-evict w s t bs h.1)
  | inr e ↦ rw e h
]

pub AreUpTo-mono : (s t : ℕ) (bs : List (ℕ × Bucket)) → s ≤ t → AreUpTo s bs → AreUpTo t bs
AreUpTo-mono s t [] le h = tt
AreUpTo-mono s t (p ∷ bs) le h = (omega (arith, h.0), AreUpTo-mono s t bs le h.1)

pub AreUpTo-put_last :
    (s v : ℕ) (bs : List (ℕ × Bucket)) → AreUpTo s bs → AreUpTo s (put_last s v bs)
unfolding put_last
AreUpTo-put_last s v [] h = (omega arith, tt)
AreUpTo-put_last s v ((q, b) ∷ []) h = elim (Bool-cases (q == s)) [
  | inl e ↦ rw e h
  | inr e ↦ rw e (h.0, (omega arith, tt))
]
AreUpTo-put_last s v (x ∷ y ∷ bs) h = (h.0, AreUpTo-put_last s v (y ∷ bs) h.1)

pub evict-expired :
    (w s t : ℕ) (bs : List (ℕ × Bucket))
    → AreUpTo s bs
    → ltb (s + w) (t + 1) ≡ true
    → evict w t bs ≡ []
unfolding evict
evict-expired w s t [] h e = refl
evict-expired w s t ((q, b) ∷ bs) h e = ground (arith, h.0, evict-expired w s t bs h.1 e)

pub stats_of-put_last :
    (s v : ℕ) (bs : List (ℕ × Bucket))
    → stats_of (put_last s v bs) ≡ some (total new_bucket (put_last s v bs))
unfolding put_last stats_of
stats_of-put_last s v [] = refl
stats_of-put_last s v ((q, b) ∷ []) = ground arith
stats_of-put_last s v (x ∷ y ∷ bs) = refl

pub total-eq-summary :
    (bs : List (ℕ × Bucket)) (vs : List ℕ)
    → stats_of bs ≡ reference vs
    → total new_bucket bs ≡ summary vs
unfolding total stats_of
total-eq-summary [] [] h = refl
total-eq-summary [] (v ∷ vs) h = cc
total-eq-summary (x ∷ bs) [] h = cc
total-eq-summary (x ∷ bs) (v ∷ vs) h = cc

pub seconds_mono : (s t : ℕ) → s ≤ t → seconds s ≤ seconds t
seconds_mono s t h = omega arith
