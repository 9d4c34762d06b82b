-- ===== src/Metrics/Registry.antt =====
-- The registry of the manager: what each key is found to have observed.
use aiokpl.Common.{
  ℕ, ◌+◌, ◌≤◌, ◌≡◌, refl, ap, ◌∙◌, inl, inr, Bool-cases, Option, none, some, List, [], ◌∷◌, ◌++◌,
  arith, if◌then◌else◌,
}
use mathlib.Core.Path.{subst}
use mathlib.Core.List.{append-nil}
use aiokpl.Common.Dict
use aiokpl.Common.Dict.{Dict, IsDict, get-put, put-IsDict}
use aiokpl.Metrics.Types.{MetricKey, MetricKey_Eq}
use aiokpl.Metrics.Window.{Bucket, Accumulator, stats, record_value}
use aiokpl.Metrics.Summary.{Observation, live, reference}
use aiokpl.Metrics.Live.{
  Represents, Represents-later, Represents-stats, Represents-record_value, stats-Represents,
  Represents-new,
}
use aiokpl.Metrics.{Metric, new_metric, MetricsManager, metric_or_new, put_key, snapshot_each}
use aiokpl.Metrics.Asked.{stats_at, asked_at, tell-le, snapshot_each-Asked, snapshot_each-IsDict}

-- Observations with their keys.
abbrev pub Log : Type 0
Log = List (MetricKey × Observation)

-- What was observed for a key.
abbrev pub history : MetricKey → Log → List Observation
history k [] = []
history k ((j, o) ∷ h) = if MetricKey_Eq.equal j k then o ∷ history k h else history k h

history-append : (k : MetricKey) (h h' : Log) → history k (h ++ h') ≡ history k h ++ history k h'
history-append k [] h' = refl
history-append k ((j, o) ∷ h) h' = ground (arith, history-append k h h')

window-record_value :
    (now value : ℕ) (a : Accumulator) → (record_value now value a).window ≡ a.window
unfolding record_value
window-record_value now value a = refl

window-stats : (now : ℕ) (a : Accumulator) → (stats now a).1.window ≡ a.window
unfolding stats
window-stats now a = refl

elim-none :
    (o before : Option Bucket) → before ≡ none → elim o [ none ↦ before | some b ↦ some b ] ≡ o
elim-none none before e = e
elim-none (some b) before e = refl

module _ (clock : ℕ → ℕ) where
  -- What the registry holds of a key, if `h` was observed for it up to `last`.
  abbrev Tracked : ℕ → List Observation → Option Metric → Type 0
  Tracked last h none = h ≡ []
  Tracked last h (some metric) = Represents last h metric.acc × (metric.acc.window ≡ 60)

  pub record Tracks (log : Log) (reads : ℕ) (registry : Dict MetricKey Metric) : Type 0 where
    last : ℕ
    past : last ≤ clock reads
    unique : IsDict registry
    each : (k : MetricKey) → Tracked last (history k log) (Dict.get k registry)

  Tracked-later :
      (last now : ℕ) (h : List Observation) (o : Option Metric)
      → last ≤ now
      → Tracked last h o
      → Tracked now h o
  Tracked-later last now h none le fits = fits
  Tracked-later last now h (some metric) le (fits, w) =
      (Represents-later last now h metric.acc le fits, w)

  Tracked-put :
      (last now value : ℕ) (k : MetricKey) (h : List Observation) (o : Option Metric)
      → last ≤ now
      → Tracked last h o
      → Tracked now
          (h ++ (now, value) ∷ [])
          (some record (metric_or_new k o) { acc = record_value now value (metric_or_new k o).acc })
  Tracked-put last now value k h none le fits = rw fits (
    Represents-record_value last now value [] (new_metric k).acc (Represents-new 60 last) le,
    window-record_value now value (new_metric k).acc,
  )
  Tracked-put last now value k h (some metric) le (fits, w) = (
    Represents-record_value last now value h metric.acc fits le,
    window-record_value now value metric.acc ∙ w,
  )

  Tracked-asked :
      (last now : ℕ) (h : List Observation) (o : Option Metric)
      → last ≤ now
      → Tracked last h o
      → Tracked now h (asked_at now o)
  Tracked-asked last now h none le fits = fits
  Tracked-asked last now h (some metric) le (fits, w) =
      (Represents-stats last now h metric.acc fits le, window-stats now metric.acc ∙ w)

  -- What is found at a time, if nothing was found before.
  found-Tracked :
      (last now : ℕ) (h : List Observation) (o : Option Metric)
      → last ≤ now
      → Tracked last h o
      → stats_at now o none ≡ reference (live 60 now h)
  found-Tracked last now h none le fits = rw fits refl
  found-Tracked last now h (some metric) le (fits, w) =
      elim-none (stats now metric.acc).0 none refl
      ∙ stats-Represents last now h metric.acc le fits
      ∙ ap (λ w'. reference (live w' now h)) w

  module _ (mono : (i j : ℕ) → i ≤ j → clock i ≤ clock j) where
    pub put_key-Tracks :
        (log : Log) (reads value : ℕ) (key : MetricKey) (m : MetricsManager)
        → Tracks log reads m.registry
        → Tracks
            (log ++ (key, (clock reads, value)) ∷ [])
            (put_key clock reads value key m).2
            (put_key clock reads value key m).1.registry
    unfolding put_key
    put_key-Tracks log reads value key m fits =
        let metric = metric_or_new key (Dict.get key m.registry) in
        let metric' = record metric { acc = record_value (clock reads) value metric.acc } in
        record {
          last = clock reads;
          past = mono _ _ (omega (arith, tell-le clock (reads + 1) m.eventful value key));
          unique = put-IsDict key metric' m.registry fits.unique;
          each = λ k. elim (Bool-cases (MetricKey_Eq.equal key k)) [
            | inl e ↦
                rw (get-put key k metric' m.registry, history-append k log _, e)
                  (subst
                    (λ i.
                      Tracked (clock reads) (history i log ++ (clock reads, value) ∷ [])
                        (some metric'))
                    ((MetricKey_Eq.equal_iff key k).0 e)
                    (Tracked-put fits.last (clock reads) value key (history key log)
                      (Dict.get key m.registry) fits.past (fits.each key)))
            | inr e ↦
                rw
                  (
                    get-put key k metric' m.registry,
                    history-append k log _,
                    e,
                    append-nil (history k log),
                  )
                  (Tracked-later fits.last (clock reads) (history k log) (Dict.get k m.registry)
                    fits.past (fits.each k))
          ];
        }

    pub snapshot_each-Tracks :
        (log : Log) (reads : ℕ) (ms : Dict MetricKey Metric) (result : Dict MetricKey Bucket)
        → Tracks log reads ms
        → Tracks log (snapshot_each clock reads ms result).2 (snapshot_each clock reads ms result).1
    snapshot_each-Tracks log reads ms result fits = record {
      last = clock (snapshot_each clock reads ms result).2;
      past = omega arith;
      unique = snapshot_each-IsDict clock reads ms result fits.unique;
      each = λ k.
          let asked = snapshot_each-Asked clock k reads ms result fits.unique in
          let at = clock asked.at in
          let before = mono reads asked.at asked.first in
          rw asked.entry (
            Tracked-later at _ (history k log) (asked_at at (Dict.get k ms))
              (mono asked.at _ asked.last)
              (Tracked-asked fits.last at (history k log) (Dict.get k ms)
                (omega (arith, fits.past, before)) (fits.each k)));
    }

    pub snapshot_each-found :
        (log : Log) (reads : ℕ) (ms : Dict MetricKey Metric) (k : MetricKey)
        → Tracks log reads ms
        → (at : ℕ) × (reads ≤ at)
          × (at ≤ (snapshot_each clock reads ms []).2)
          × (Dict.get k (snapshot_each clock reads ms []).0
              ≡ reference (live 60 (clock at) (history k log)))
    unfolding Dict.get
    snapshot_each-found log reads ms k fits =
        let asked = snapshot_each-Asked clock k reads ms [] fits.unique in
        (
          asked.at,
          asked.first,
          asked.last,
          asked.found
              ∙ found-Tracked fits.last (clock asked.at) (history k log) (Dict.get k ms)
                  (omega (arith, fits.past, mono reads asked.at asked.first)) (fits.each k),
        )

  pub Tracks-new : (reads : ℕ) → Tracks [] reads []
  unfolding Dict.get
  Tracks-new reads = record {
    last = clock reads;
    past = omega arith;
    unique = tt;
    each = λ k. refl;
  }
