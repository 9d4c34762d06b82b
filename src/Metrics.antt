-- ===== src/Metrics.antt =====
-- aiokpl/metrics.py: `MetricsManager`, over the rolling windows of Metrics.Window. The sink is
-- outside: what it is told is the result of an operation, in order. The clock is a function of the
-- count of readings, and each operation takes and returns that count. A scope of the upload task is
-- a flag that says whether it was cancelled.
pub mod Texts
pub mod Types
pub mod Window
pub mod Summary
pub mod Evict
pub mod Live
pub mod Asked
pub mod Registry
pub mod Export
pub mod Told
pub mod Sink
mod Tests
use aiokpl.Common.{
  ℕ, ◌+◌, Bool, true, false, Option, none, some, List, [], ◌∷◌, ◌++◌, if◌then◌else◌,
}
use aiokpl.Common.Dict
use aiokpl.Common.Dict.{Dict}
use aiokpl.Common.Eq.{Eq}
use aiokpl.Common.Result.{Result, ok, err, ◌>>=◌}
use aiokpl.Aggregation.Types.{Str}
use aiokpl.Metrics.Types.{
  MetricsLevel, none_level, summary, detailed, MetricKey, MetricKey_Eq, dimensions, MetricEvent,
  MetricSnapshot,
}
use aiokpl.Metrics.Window.{Bucket, Accumulator, new_accumulator, record_value, stats, window_bounds}

pub record Metric : Type 0 where
  pub key : MetricKey
  pub acc : Accumulator

-- `Metric(key)`, with the default window of 60 seconds.
abbrev pub new_metric : MetricKey → Metric
new_metric key = record { key = key; acc = new_accumulator 60 }

pub record MetricsManager : Type 0 where
  pub level : MetricsLevel
  -- Whether the sink is an `EventfulMetricsSink`.
  pub eventful : Bool
  pub registry : Dict MetricKey Metric
  -- `_tg is not None`
  pub entered : Bool
  -- `state.scope`: none before `__aenter__`, then whether it was cancelled.
  pub upload_cancelled : Option Bool
  pub closed : Bool

abbrev pub new_manager : MetricsLevel → Bool → MetricsManager
new_manager level eventful = record {
  level = level;
  eventful = eventful;
  registry = [];
  entered = false;
  upload_cancelled = none;
  closed = false;
}

-- What the sink is told.
pub data SinkCall : Type 0 where
  enters exits : SinkCall
  records : MetricEvent → SinkCall
  exports : List MetricSnapshot → SinkCall

-- A failed `assert`.
pub data ManagerError : Type 0 where
  assertion : ManagerError

-- The key that `put` looks up.
abbrev pub key_of : MetricsLevel → MetricKey → MetricKey
key_of summary k = record k { shard_id = none; error_code = none }
key_of level k = k

-- `self._registry.get(key)`, or the new metric.
abbrev pub metric_or_new : MetricKey → Option Metric → Metric
metric_or_new key (some metric) = metric
metric_or_new key none = new_metric key

module _ (clock : ℕ → ℕ) where
  -- The call of `record`, if the sink is eventful.
  unfoldable pub tell : ℕ → Bool → ℕ → MetricKey → List SinkCall × ℕ
  tell reads true value key = (
    records record {
      name = key.name;
      value = value;
      timestamp = clock reads;
      dimensions = dimensions key;
    }
        ∷ [],
    reads + 1,
  )
  tell reads false value key = ([], reads)

  -- `put` behind its first `return`.
  unfoldable pub put_key : ℕ → ℕ → MetricKey → MetricsManager → List SinkCall × MetricsManager × ℕ
  unfolding tell
  put_key reads value key m =
      let metric = metric_or_new key (Dict.get key m.registry) in
      let metric' = record metric { acc = record_value (clock reads) value metric.acc } in
      let (calls, reads') = tell (reads + 1) m.eventful value key in
      (calls, record m { registry = Dict.put key metric' m.registry }, reads')

  -- `put`, by the level; the name and the dimensions are given as a key.
  unfoldable pub put_at :
      MetricsLevel → ℕ → ℕ → MetricKey → MetricsManager → List SinkCall × MetricsManager × ℕ
  unfolding put_key
  put_at none_level reads value k m = ([], m, reads)
  put_at level reads value k m = put_key reads value (key_of level k) m

  -- `put`
  unfoldable pub put : ℕ → ℕ → MetricKey → MetricsManager → List SinkCall × MetricsManager × ℕ
  unfolding put_at
  put reads value k m = put_at m.level reads value k m

  -- `if stats is not None: result[key] = stats`
  abbrev pub put_stats : MetricKey → Option Bucket → Dict MetricKey Bucket → Dict MetricKey Bucket
  put_stats key none result = result
  put_stats key (some b) result = Dict.put key b result

  -- The loop of `snapshot`: the result, the registry and the count of readings after it.
  unfoldable pub snapshot_each :
      ℕ
      → Dict MetricKey Metric
      → Dict MetricKey Bucket
      → Dict MetricKey Bucket × Dict MetricKey Metric × ℕ
  snapshot_each reads [] result = (result, [], reads)
  snapshot_each reads ((key, metric) ∷ ms) result =
      let (b, acc) = stats (clock reads) metric.acc in
      let (result', ms', reads') = snapshot_each (reads + 1) ms (put_stats key b result) in
      (result', (key, record metric { acc = acc }) ∷ ms', reads')

  -- `snapshot`
  unfoldable pub snapshot : ℕ → MetricsManager → Dict MetricKey Bucket × MetricsManager × ℕ
  unfolding snapshot_each
  snapshot reads m =
      let (result, registry, reads') = snapshot_each reads m.registry [] in
      (result, record m { registry = registry }, reads')

  -- The `MetricSnapshot` of a metric, if `stats` is not none.
  unfoldable pub snapshot_of : MetricKey → Option Bucket → Accumulator → List MetricSnapshot
  snapshot_of key none acc = []
  snapshot_of key (some b) acc =
      let (window_start, window_end) = window_bounds acc.buckets in
      record {
        name = key.name;
        count = b.count;
        sum = b.sum;
        min = b.min;
        max = b.max;
        dimensions = dimensions key;
        window_start = window_start;
        window_end = window_end;
      }
      ∷ []

  -- The loop of `snapshots`.
  unfoldable pub snapshots_each :
      ℕ → Dict MetricKey Metric → List MetricSnapshot × Dict MetricKey Metric × ℕ
  unfolding snapshot_of
  snapshots_each reads [] = ([], [], reads)
  snapshots_each reads ((key, metric) ∷ ms) =
      let (b, acc) = stats (clock reads) metric.acc in
      let (out, ms', reads') = snapshots_each (reads + 1) ms in
      (snapshot_of key b acc ++ out, (key, record metric { acc = acc }) ∷ ms', reads')

  -- `snapshots`
  unfoldable pub snapshots : ℕ → MetricsManager → List MetricSnapshot × MetricsManager × ℕ
  unfolding snapshots_each
  snapshots reads m =
      let (out, registry, reads') = snapshots_each reads m.registry in
      (out, record m { registry = registry }, reads')

  -- `if not snaps: return`
  abbrev pub export : List MetricSnapshot → List SinkCall
  export [] = []
  export (s ∷ snaps) = exports (s ∷ snaps) ∷ []

  -- `flush`, by the level
  unfoldable pub flush_at : MetricsLevel → ℕ → MetricsManager → List SinkCall × MetricsManager × ℕ
  unfolding snapshots
  flush_at none_level reads m = ([], m, reads)
  flush_at level reads m = let (snaps, m', reads') = snapshots reads m in (export snaps, m', reads')

  -- `flush`, which is also a round of `_upload_loop`.
  unfoldable pub flush : ℕ → MetricsManager → List SinkCall × MetricsManager × ℕ
  unfolding flush_at
  flush reads m = flush_at m.level reads m

  -- `__aexit__` behind the flush: the two assertions, of `state.scope` and of `tg`.
  abbrev pub exit_checked :
      Option Bool
      → Bool
      → List SinkCall × MetricsManager × ℕ
      → Result ManagerError (List SinkCall × MetricsManager × ℕ)
  exit_checked (some cancelled) true (calls, m, reads) =
      ok (calls ++ exits ∷ [], record m { upload_cancelled = some true; entered = false }, reads)
  exit_checked scope has_group flushed = err assertion

  -- `__aexit__` behind its first `return`.
  unfoldable pub leave_entered :
      ℕ → MetricsManager → Result ManagerError (List SinkCall × MetricsManager × ℕ)
  unfolding flush
  leave_entered reads m =
      let (calls, m', reads') = flush reads (record m { closed = true }) in
      exit_checked m'.upload_cancelled m'.entered (calls, m', reads')

  -- `__aexit__`, by the level
  unfoldable pub leave_at :
      MetricsLevel → ℕ → MetricsManager → Result ManagerError (List SinkCall × MetricsManager × ℕ)
  unfolding leave_entered
  leave_at none_level reads m = ok ([], m, reads)
  leave_at level reads m = leave_entered reads m

  -- `__aexit__`
  unfoldable pub leave :
      ℕ → MetricsManager → Result ManagerError (List SinkCall × MetricsManager × ℕ)
  unfolding leave_at
  leave reads m = leave_at m.level reads m

-- `__aenter__`, by the level
unfoldable pub enter_at : MetricsLevel → MetricsManager → List SinkCall × MetricsManager
enter_at none_level m = ([], m)
enter_at level m = (enters ∷ [], record m { entered = true; upload_cancelled = some false })

-- `__aenter__`
unfoldable pub enter : MetricsManager → List SinkCall × MetricsManager
unfolding enter_at
enter m = enter_at m.level m
