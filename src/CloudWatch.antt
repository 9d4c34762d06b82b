-- ===== src/CloudWatch.antt =====
-- `CloudWatchSink` of aiokpl/sinks/cloudwatch.py. The client belongs to another library: what it is
-- asked is the result of an operation, in order. `client` and `client_ctx` say whether the field is
-- not None; region, endpoint and credentials go to the client's factory. A request that the service
-- refuses raises through `export`, and is not modelled.
pub mod Chunks
mod Tests
use aiokpl.Common.{
  ℕ, zero, suc, ◌+◌, Bool, true, false, Option, none, some, List, [], ◌∷◌, ◌++◌, map, length, take,
  drop, ltb, if◌then◌else◌,
}
use aiokpl.Common.Eq.{nat_Eq, list_Eq}
use aiokpl.Common.Dict.{Dict}
use aiokpl.Common.Dict
use aiokpl.Common.Result.{Result, ok, err}
use aiokpl.Aggregation.Types.{Str}
use aiokpl.Metrics.Types.{MetricSnapshot}
use aiokpl.Metrics.Texts.{stream_dimension, shard_dimension, error_code_dimension}

-- `_CLOUDWATCH_BATCH_LIMIT`
abbrev pub batch_limit : ℕ
batch_limit = 1000

-- `_DIMENSION_NAMES`: `"StreamName"`, `"ShardId"` and `"ErrorCode"`.
abbrev pub dimension_names : Dict Str Str
dimension_names =
    (stream_dimension, 83 ∷ 116 ∷ 114 ∷ 101 ∷ 97 ∷ 109 ∷ 78 ∷ 97 ∷ 109 ∷ 101 ∷ [])
    ∷ (shard_dimension, 83 ∷ 104 ∷ 97 ∷ 114 ∷ 100 ∷ 73 ∷ 100 ∷ [])
    ∷ (error_code_dimension, 69 ∷ 114 ∷ 114 ∷ 111 ∷ 114 ∷ 67 ∷ 111 ∷ 100 ∷ 101 ∷ [])
    ∷ []

-- The dict of a datum: the names and values of its dimensions, and its `StatisticValues`.
pub record Datum : Type 0 where
  pub metric_name : Str
  pub dimensions : List (Str × Str)
  pub sample_count : ℕ
  pub sum : ℕ
  pub minimum : Option ℕ
  pub maximum : Option ℕ

-- The arguments of `put_metric_data`.
pub record PutMetricData : Type 0 where
  pub namespace : Str
  pub metric_data : List Datum

pub record CloudWatchSink : Type 0 where
  pub namespace : Str
  pub client : Bool
  pub client_ctx : Bool

pub data CloudWatchError : Type 0 where
  not_entered : CloudWatchError

-- `__init__`
abbrev pub new_sink : Str → CloudWatchSink
new_sink namespace = record { namespace = namespace; client = false; client_ctx = false }

-- `__aenter__`
abbrev pub open_sink : CloudWatchSink → CloudWatchSink
open_sink s = record s { client = true; client_ctx = true }

-- `__aexit__`, with its assertion.
abbrev pub close_sink : CloudWatchSink → Result CloudWatchError CloudWatchSink
close_sink s =
    if s.client_ctx then ok (record s { client = false; client_ctx = false }) else err not_entered

-- `_DIMENSION_NAMES.get(key, key)`
unfoldable pub dimension_name : Str → Str
dimension_name key = elim (Dict.get key dimension_names) [ some name ↦ name | none ↦ key ]

-- `_snapshot_to_datum`
unfoldable pub snapshot_to_datum : MetricSnapshot → Datum
unfolding dimension_name
snapshot_to_datum s = record {
  metric_name = s.name;
  dimensions = map (λ d. (dimension_name d.0, d.1)) s.dimensions;
  sample_count = s.count;
  sum = s.sum;
  minimum = s.min;
  maximum = s.max;
}

-- The loop of `export` from index `i` on; the fuel is the number of datums.
unfoldable pub chunks : ℕ → ℕ → List Datum → ℕ → List (List Datum)
chunks limit zero datums i = []
chunks limit (suc fuel) datums i =
    let rest = chunks limit fuel datums (i + limit) in
    if ltb i (length datums) then take limit (drop i datums) ∷ rest else []

-- `export` behind its `return`.
unfoldable pub put_chunks : Str → List Datum → List PutMetricData
unfolding chunks
put_chunks namespace datums =
    map (λ chunk. record { namespace = namespace; metric_data = chunk })
      (chunks batch_limit (length datums) datums 0)

-- `export`
unfoldable pub export_snapshots : List MetricSnapshot → CloudWatchSink → List PutMetricData
unfolding put_chunks snapshot_to_datum
export_snapshots [] s = []
export_snapshots (x ∷ xs) s =
    if s.client then put_chunks s.namespace (map snapshot_to_datum (x ∷ xs)) else []

-- A call of the sink.
pub data SinkOp : Type 0 where
  opens closes : SinkOp
  exports : List MetricSnapshot → SinkOp

-- A call that raises changes nothing.
abbrev pub or_same : CloudWatchSink → Result CloudWatchError CloudWatchSink → CloudWatchSink
or_same s (ok s') = s'
or_same s (err e) = s

-- The requests of a sequence of calls, and the sink after it.
unfoldable pub run : List SinkOp → CloudWatchSink → List PutMetricData × CloudWatchSink
unfolding export_snapshots
run [] s = ([], s)
run (opens ∷ ops) s = run ops (open_sink s)
run (closes ∷ ops) s = run ops (or_same s (close_sink s))
run (exports xs ∷ ops) s = let (requests, s') = run ops s in (export_snapshots xs s ++ requests, s')
