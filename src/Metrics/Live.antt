-- ===== src/Metrics/Live.antt =====
-- The rolling window against the plain list of what was observed.
use aiokpl.Common.{
  ℕ, ◌+◌, ◌≤◌, ◌≡◌, refl, ap, sym, ◌∙◌, inl, inr, true, false, Bool-cases, some, List, [], ◌∷◌,
  ◌++◌, arith, ltb,
}
use mathlib.Core.List.{append_assoc, append-nil}
use aiokpl.Metrics.Window.{
  Bucket, new_bucket, observe, Accumulator, new_accumulator, seconds, evict, put_last, record_value,
  stats_of, stats,
}
use aiokpl.Metrics.Summary.{Observation, live, reference, reference-append, live-append}
use aiokpl.Metrics.Evict.{
  evict-evict, total-put_last, evict-put_last, AreUpTo, AreUpTo-evict, AreUpTo-mono,
  AreUpTo-put_last, evict-expired, stats_of-put_last, total-eq-summary, seconds_mono,
}

-- What happens to an accumulator.
pub data Call : Type 0 where
  puts : ℕ → ℕ → Call
  asks : ℕ → Call

unfoldable pub run : List Call → Accumulator → Accumulator
unfolding record_value stats
run [] a = a
run (puts now value ∷ cs) a = run cs (record_value now value a)
run (asks now ∷ cs) a = run cs (stats now a).1

abbrev pub observed : List Call → List Observation
observed [] = []
observed (puts now value ∷ cs) = (now, value) ∷ observed cs
observed (asks now ∷ cs) = observed cs

-- The clock does not go back, from `from` over the calls to `end`.
abbrev pub IsMonotone : ℕ → List Call → ℕ → Type 0
IsMonotone from [] end = from ≤ end
IsMonotone from (puts now value ∷ cs) end = (from ≤ now) × IsMonotone now cs end
IsMonotone from (asks now ∷ cs) end = (from ≤ now) × IsMonotone now cs end

-- What an accumulator says at any later time is the summary of what is live of `h` then.
pub record Represents (last : ℕ) (h : List Observation) (a : Accumulator) : Type 0 where
  pub up_to : AreUpTo (seconds last) a.buckets
  later :
      (t : ℕ)
      → last ≤ t
      → stats_of (evict a.window (seconds t) a.buckets) ≡ reference (live a.window t h)

module _ (last now : ℕ) (h : List Observation) (a : Accumulator) (fits : Represents last h a)
    (le : last ≤ now) where
  pub Represents-stats : Represents now h (stats now a).1
  unfolding stats
  Represents-stats = record {
    up_to =
        AreUpTo-evict a.window (seconds now) (seconds now) a.buckets (
          AreUpTo-mono (seconds last) (seconds now) a.buckets (seconds_mono last now le)
            fits.up_to);
    later = λ t le'.
        ap stats_of
          (evict-evict a.window (seconds now) (seconds t) a.buckets (seconds_mono now t le'))
        ∙ fits.later t (omega arith);
  }

module _ (w now v : ℕ) (h : List Observation) (bs : List (ℕ × Bucket))
    (bound : AreUpTo (seconds now) bs) (t : ℕ)
    (fits : stats_of (evict w (seconds t) bs) ≡ reference (live w t h)) where
  stats_of-put_expired :
      ltb (seconds now + w) (seconds t + 1) ≡ true
      → stats_of (evict w (seconds t) (put_last (seconds now) v bs))
        ≡ reference (live w t (h ++ (now, v) ∷ []))
  stats_of-put_expired e =
      let bound' = AreUpTo-put_last (seconds now) v bs bound in
      ap stats_of (evict-expired w (seconds now) (seconds t) _ bound' e)
      ∙ ap stats_of (sym (evict-expired w (seconds now) (seconds t) bs bound e))
      ∙ fits
      ∙ ap reference (sym (rw (live-append w t h ((now, v) ∷ []), e) (append-nil (live w t h))))

  stats_of-put_live :
      ltb (seconds now + w) (seconds t + 1) ≡ false
      → stats_of (evict w (seconds t) (put_last (seconds now) v bs))
        ≡ reference (live w t (h ++ (now, v) ∷ []))
  stats_of-put_live e =
      let rest = evict w (seconds t) bs in
      ap stats_of (evict-put_last w (seconds now) (seconds t) v bs e)
      ∙ stats_of-put_last (seconds now) v rest
      ∙ ap some (total-put_last new_bucket (seconds now) v rest)
      ∙ ap (λ b. some (observe v b)) (total-eq-summary rest (live w t h) fits)
      ∙ sym (reference-append v (live w t h))
      ∙ ap reference (sym (rw (live-append w t h ((now, v) ∷ []), e) refl))

module _ (last now v : ℕ) (h : List Observation) (a : Accumulator) (fits : Represents last h a)
    (le : last ≤ now) where
  pub Represents-record_value : Represents now (h ++ (now, v) ∷ []) (record_value now v a)
  unfolding record_value stats
  Represents-record_value =
      let evicted = Represents-stats last now h a fits le in
      let bs = (stats now a).1.buckets in
      record {
        up_to = AreUpTo-put_last (seconds now) v bs evicted.up_to;
        later = λ t le'. elim (Bool-cases (ltb (seconds now + a.window) (seconds t + 1))) [
          | inl e ↦ stats_of-put_expired a.window now v h bs evicted.up_to t (evicted.later t le') e
          | inr e ↦ stats_of-put_live a.window now v h bs evicted.up_to t (evicted.later t le') e
        ];
      }

pub Represents-later :
    (last now : ℕ) (h : List Observation) (a : Accumulator)
    → last ≤ now
    → Represents last h a
    → Represents now h a
Represents-later last now h a le fits = record {
  up_to = AreUpTo-mono (seconds last) (seconds now) a.buckets (seconds_mono last now le) fits.up_to;
  later = λ t le'. fits.later t (omega arith);
}

pub Represents-new : (window time : ℕ) → Represents time [] (new_accumulator window)
unfolding stats_of evict
Represents-new window time = record { up_to = tt; later = λ t le. refl }

pub stats-Represents :
    (last now : ℕ) (h : List Observation) (a : Accumulator)
    → last ≤ now
    → Represents last h a
    → (stats now a).0 ≡ reference (live a.window now h)
unfolding stats
stats-Represents last now h a le fits = fits.later now le

stats-run_from :
    (last end : ℕ) (h : List Observation) (a : Accumulator) (cs : List Call)
    → Represents last h a
    → IsMonotone last cs end
    → (stats end (run cs a)).0 ≡ reference (live a.window end (h ++ observed cs))
unfolding run stats record_value
stats-run_from last end h a [] fits le = rw (append-nil h) (stats-Represents last end h a le fits)
stats-run_from last end h a (puts now v ∷ cs) fits (le, rest) =
    stats-run_from now end (h ++ (now, v) ∷ []) (record_value now v a) cs
      (Represents-record_value last now v h a fits le) rest
    ∙ ap (λ k. reference (live a.window end k)) (append_assoc h ((now, v) ∷ []) (observed cs))
stats-run_from last end h a (asks now ∷ cs) fits (le, rest) =
    stats-run_from now end h (stats now a).1 cs (Represents-stats last now h a fits le) rest

-- A new accumulator, after any calls of `put` and `stats` at times of a clock that does not go back,
-- says of the window what the list of observations says: `stats` returns the number, the sum, the
-- least and the greatest of the values observed within `window` seconds, or none if there are none.
pub stats-run :
    (window from end : ℕ) (cs : List Call)
    → IsMonotone from cs end
    → (stats end (run cs (new_accumulator window))).0 ≡ reference (live window end (observed cs))
stats-run window from end cs clock =
    stats-run_from from end [] (new_accumulator window) cs (Represents-new window from) clock
