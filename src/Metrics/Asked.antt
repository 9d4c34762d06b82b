-- ===== src/Metrics/Asked.antt =====
-- The loop of `snapshot` over the registry, key by key.
use aiokpl.Common.{
  ℕ, ◌+◌, ◌≤◌, ◌≡◌, refl, ap, sym, ◌∙◌, inl, inr, Bool, true, false, Bool-cases, Option, none, some,
  [], ◌∷◌, arith, if◌then◌else◌,
}
use aiokpl.Common.Dict
use aiokpl.Common.Dict.{Dict, IsDict, get-put, put-IsDict}
use aiokpl.Metrics.Types.{MetricKey, MetricKey_Eq}
use aiokpl.Metrics.Window.{Bucket, stats}
use aiokpl.Metrics.{Metric, tell, put_stats, snapshot_each}

-- The statistics of a metric at a time, if it has any.
abbrev pub stats_at : ℕ → Option Metric → Option Bucket → Option Bucket
stats_at time none before = before
stats_at time (some metric) before = elim (stats time metric.acc).0 [
  | none ↦ before
  | some b ↦ some b
]

abbrev pub asked_at : ℕ → Option Metric → Option Metric
asked_at time none = none
asked_at time (some metric) = some (record metric { acc = (stats time metric.acc).1 })

module _ (clock : ℕ → ℕ) where
  pub tell-le :
      (reads : ℕ) (eventful : Bool) (value : ℕ) (key : MetricKey)
      → reads ≤ (tell clock reads eventful value key).1
  unfolding tell
  tell-le reads true value key = omega arith
  tell-le reads false value key = omega arith

  -- A loop over the registry reads the clock once for each metric.
  pub record Asked (k : MetricKey) (reads : ℕ) (ms : Dict MetricKey Metric)
      (result : Dict MetricKey Bucket) : Type 0 where
    pub at : ℕ
    pub first : reads ≤ at
    pub last : at ≤ (snapshot_each clock reads ms result).2
    pub entry :
        Dict.get k (snapshot_each clock reads ms result).1 ≡ asked_at (clock at) (Dict.get k ms)
    pub found :
        Dict.get k (snapshot_each clock reads ms result).0
        ≡ stats_at (clock at) (Dict.get k ms) (Dict.get k result)

  get-put_stats :
      (k j : MetricKey) (b : Option Bucket) (result : Dict MetricKey Bucket)
      → Dict.get k (put_stats clock j b result) ≡ (
          if MetricKey_Eq.equal j k
          then elim b [ none ↦ Dict.get k result | some b' ↦ some b' ]
          else Dict.get k result)
  get-put_stats k j none result = ground arith
  get-put_stats k j (some b) result = get-put j k b result

  pub snapshot_each-Asked :
      (k : MetricKey) (reads : ℕ) (ms : Dict MetricKey Metric) (result : Dict MetricKey Bucket)
      → IsDict ms
      → Asked k reads ms result
  unfolding snapshot_each Dict.get
  snapshot_each-Asked k reads [] result h = record {
    at = reads;
    first = omega arith;
    last = omega arith;
    entry = refl;
    found = refl;
  }
  snapshot_each-Asked k reads ((j, metric) ∷ ms) result (fresh, h) =
      let result1 = put_stats clock j (stats (clock reads) metric.acc).0 result in
      let rest = snapshot_each-Asked k (reads + 1) ms result1 h in
      let own = get-put_stats k j (stats (clock reads) metric.acc).0 result in
      elim (Bool-cases (MetricKey_Eq.equal j k)) [
        | inl e ↦
            let gone = ap (λ i. Dict.get i ms) (sym ((MetricKey_Eq.equal_iff j k).0 e)) ∙ fresh in
            record {
              at = reads;
              first = omega arith;
              last = omega (arith, rest.first, rest.last);
              entry = rw e refl;
              found =
                  rest.found
                  ∙ ap (λ o. stats_at (clock rest.at) o (Dict.get k result1)) gone
                  ∙ own
                  ∙ rw e refl;
            }
        | inr e ↦ record {
          at = rest.at;
          first = omega (arith, rest.first);
          last = rest.last;
          entry = rw e rest.entry;
          found =
              rest.found
              ∙ rw e (ap (λ o. stats_at (clock rest.at) (Dict.get k ms) o) (own ∙ rw e refl));
        }
      ]

  pub snapshot_each-IsDict :
      (reads : ℕ) (ms : Dict MetricKey Metric) (result : Dict MetricKey Bucket)
      → IsDict ms
      → IsDict (snapshot_each clock reads ms result).1
  unfolding snapshot_each
  snapshot_each-IsDict reads [] result h = tt
  snapshot_each-IsDict reads ((j, metric) ∷ ms) result (fresh, h) =
      let result1 = put_stats clock j (stats (clock reads) metric.acc).0 result in
      (
        (snapshot_each-Asked j (reads + 1) ms result1 h).entry ∙ ap (asked_at _) fresh,
        snapshot_each-IsDict (reads + 1) ms result1 h,
      )
