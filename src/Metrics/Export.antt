-- ===== src/Metrics/Export.antt =====
-- Runs of the manager: what its snapshots say, and what its sink is told.
use aiokpl.Common.{ℕ, ◌+◌, ◌≤◌, ◌≡◌, refl, ap, Bool, List, [], ◌∷◌, ◌++◌}
use mathlib.Core.List.{append-nil}
use aiokpl.Common.Dict
use aiokpl.Common.Dict.{Dict, IsDict}
use aiokpl.Metrics.Types.{MetricsLevel, none_level, summary, detailed, MetricKey, MetricKey_Eq}
use aiokpl.Metrics.Window.{Bucket, stats}
use aiokpl.Metrics.Summary.{live, reference}
use aiokpl.Metrics.Registry.{
  Log, history, Tracks, Tracks-new, put_key-Tracks, snapshot_each-Tracks, snapshot_each-found,
}
use aiokpl.Metrics.{
  Metric, MetricsManager, new_manager, SinkCall, key_of, put_at, put, put_stats, snapshot_each,
  snapshot, snapshots_each, snapshots, flush_at, flush,
}

-- What is done with a manager.
pub data ManagerCall : Type 0 where
  puts : ℕ → MetricKey → ManagerCall
  takes flushes : ManagerCall

-- A manager, the count of readings, what was observed and what the sink was told.
pub record Session : Type 0 where
  pub manager : MetricsManager
  pub reads : ℕ
  pub log : Log
  pub told : List SinkCall

abbrev pub start : ℕ → MetricsManager → Session
start reads m = record { manager = m; reads = reads; log = []; told = [] }

-- The observation of a put: none at the level `NONE`, else of the key that the level keeps.
abbrev pub logged : MetricsLevel → ℕ → ℕ → MetricKey → Log
logged none_level now value k = []
logged level now value k = (key_of level k, (now, value)) ∷ []

module _ (clock : ℕ → ℕ) where
  unfoldable pub step : ManagerCall → Session → Session
  step (puts value k) s =
      let (calls, m, reads) = put clock s.reads value k s.manager in
      record {
        manager = m;
        reads = reads;
        log = s.log ++ logged s.manager.level (clock s.reads) value k;
        told = s.told ++ calls;
      }
  step takes s =
      let (result, m, reads) = snapshot clock s.reads s.manager in
      record s { manager = m; reads = reads }
  step flushes s =
      let (calls, m, reads) = flush clock s.reads s.manager in
      record s { manager = m; reads = reads; told = s.told ++ calls }

  unfoldable pub run : List ManagerCall → Session → Session
  unfolding step
  run [] s = s
  run (c ∷ cs) s = run cs (step c s)

  -- `snapshots` leaves the registry and the clock as `snapshot` does.
  record AsSnapshot (reads : ℕ) (ms : Dict MetricKey Metric) (result : Dict MetricKey Bucket)
      : Type 0 where
    registry : (snapshots_each clock reads ms).1 ≡ (snapshot_each clock reads ms result).1
    count : (snapshots_each clock reads ms).2 ≡ (snapshot_each clock reads ms result).2

  snapshots_each-AsSnapshot :
      (reads : ℕ) (ms : Dict MetricKey Metric) (result : Dict MetricKey Bucket)
      → AsSnapshot reads ms result
  unfolding snapshots_each snapshot_each
  snapshots_each-AsSnapshot reads [] result = record { registry = refl; count = refl }
  snapshots_each-AsSnapshot reads ((j, metric) ∷ ms) result =
      let rest =
        snapshots_each-AsSnapshot (reads + 1) ms
          (put_stats clock j (stats (clock reads) metric.acc).0 result) in
      record {
        registry =
            ap (λ l. (j, record metric { acc = (stats (clock reads) metric.acc).1 }) ∷ l)
              rest.registry;
        count = rest.count;
      }

  module _ (mono : (i j : ℕ) → i ≤ j → clock i ≤ clock j) where
    abbrev IsTracked : Session → Type 0
    IsTracked s = Tracks clock s.log s.reads s.manager.registry

    put_at-Tracks :
        (level : MetricsLevel) (log : Log) (reads value : ℕ) (k : MetricKey) (m : MetricsManager)
        → Tracks clock log reads m.registry
        → Tracks clock
            (log ++ logged level (clock reads) value k)
            (put_at clock level reads value k m).2
            (put_at clock level reads value k m).1.registry
    unfolding put_at
    put_at-Tracks none_level log reads value k m fits = rw (append-nil log) fits
    put_at-Tracks summary log reads value k m fits =
        put_key-Tracks clock mono log reads value (key_of summary k) m fits
    put_at-Tracks detailed log reads value k m fits =
        put_key-Tracks clock mono log reads value k m fits

    snapshots-Tracks :
        (log : Log) (reads : ℕ) (m : MetricsManager)
        → Tracks clock log reads m.registry
        → Tracks clock log (snapshots clock reads m).2 (snapshots clock reads m).1.registry
    unfolding snapshots
    snapshots-Tracks log reads m fits =
        let same = snapshots_each-AsSnapshot reads m.registry [] in
        rw (same.registry, same.count)
          (snapshot_each-Tracks clock mono log reads m.registry [] fits)

    flush_at-Tracks :
        (level : MetricsLevel) (log : Log) (reads : ℕ) (m : MetricsManager)
        → Tracks clock log reads m.registry
        → Tracks clock log
            (flush_at clock level reads m).2
            (flush_at clock level reads m).1.registry
    unfolding flush_at
    flush_at-Tracks none_level log reads m fits = fits
    flush_at-Tracks summary log reads m fits = snapshots-Tracks log reads m fits
    flush_at-Tracks detailed log reads m fits = snapshots-Tracks log reads m fits

    step-IsTracked : (c : ManagerCall) (s : Session) → IsTracked s → IsTracked (step c s)
    unfolding step put snapshot flush
    step-IsTracked (puts value k) s fits =
        put_at-Tracks s.manager.level s.log s.reads value k s.manager fits
    step-IsTracked takes s fits =
        snapshot_each-Tracks clock mono s.log s.reads s.manager.registry [] fits
    step-IsTracked flushes s fits = flush_at-Tracks s.manager.level s.log s.reads s.manager fits

    run-IsTracked : (cs : List ManagerCall) (s : Session) → IsTracked s → IsTracked (run cs s)
    unfolding run
    run-IsTracked [] s fits = fits
    run-IsTracked (c ∷ cs) s fits = run-IsTracked cs (step c s) (step-IsTracked c s fits)

    -- After any puts, snapshots and flushes of a new manager, whose clock does not go back, a
    -- snapshot says of each key what the list of its observations says at a reading of the clock from
    -- the first of the snapshot to the next one behind it: the number, the sum, the least and the
    -- greatest of those of the last 60 seconds, or nothing if there are none.
    pub snapshot-run :
        (level : MetricsLevel) (eventful : Bool) (reads : ℕ) (cs : List ManagerCall) (k : MetricKey)
        → let s = run cs (start reads (new_manager level eventful)) in
          (at : ℕ) × (s.reads ≤ at)
          × (at ≤ (snapshot clock s.reads s.manager).2)
          × (Dict.get k (snapshot clock s.reads s.manager).0
              ≡ reference (live 60 (clock at) (history k s.log)))
    unfolding snapshot
    snapshot-run level eventful reads cs k =
        let s = run cs (start reads (new_manager level eventful)) in
        snapshot_each-found clock mono s.log s.reads s.manager.registry k
          (run-IsTracked cs (start reads (new_manager level eventful)) (Tracks-new clock reads))
