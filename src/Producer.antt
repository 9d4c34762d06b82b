-- ===== src/Producer.antt =====
-- `Producer` of aiokpl/producer.py: admission and backpressure, over the pipelines of the streams.
-- The semaphore of anyio is the count of its permits: a call that has to wait has not taken its step
-- yet. `starting` counts the calls of `put_record` that hold a permit and have not yet registered
-- their outcome. Entering and leaving the context manager, and a `put_record` that is cancelled or
-- raises once its outcome is registered, are not modelled.
pub mod Backpressure
mod Tests
use aiokpl.Common.{
  ℕ, ◌+◌, ◌-◌, ◌≡◌, ◌<◌, Bool, true, false, Option, none, some, List, [], ◌∷◌, ◌==◌, if◌then◌else◌,
  length,
}
use aiokpl.Common.Dict
use aiokpl.Common.Dict.{Dict}
use aiokpl.Common.Eq.{Eq, nat_Eq, list_Eq}
use aiokpl.Common.Result.{Result, ok, err}
use aiokpl.Aggregation.Types.{Bytes, Str, UserRecord}
use aiokpl.Hashing.{HashError}
use aiokpl.Limiter.{Pending}
use aiokpl.ShardMap.{ShardMap, ShardMapConfig}
use aiokpl.Config.{Config}
use aiokpl.Pipeline.{submit, build_pipeline}
use aiokpl.Pipeline.Types.{Pipeline}
use aiokpl.Pipeline.Step.{Step}
use aiokpl.Metrics.Texts.{user_records_pending}
use aiokpl.Metrics.{MetricsManager, SinkCall}
use aiokpl.Metrics

pub record Producer : Type 0 where
  pub closed : Bool
  pub permits : ℕ
  pub outstanding : ℕ
  pub pipelines : Dict Str Pipeline
  pub starting : ℕ

-- `__init__`
abbrev pub new_producer : Config → Producer
new_producer cfg = record {
  closed = false;
  permits = cfg.max_outstanding_records;
  outstanding = 0;
  pipelines = [];
  starting = 0;
}

-- `RuntimeError("Producer is closed")` and `ValueError("partition_key must be non-empty")`.
pub data PutError : Type 0 where
  producer_closed empty_partition_key : PutError

-- `put_record` up to its `try`: an error, or a call that waits for a permit, or the producer.
unfoldable pub begin_put : Str → Producer → Result PutError (Option Producer)
begin_put partition_key p =
    if p.closed
    then err producer_closed
    else if length partition_key == 0
    then err empty_partition_key
    else if p.permits == 0
    then ok none
    else ok (
        some record p {
          permits = p.permits - 1;
          outstanding = p.outstanding + 1;
          starting = p.starting + 1;
        })

-- The `except` of `put_record`, before its outcome is registered.
abbrev pub give_up : Producer → Producer
give_up p = record p {
  permits = p.permits + 1;
  outstanding = p.outstanding - 1;
  starting = p.starting - 1;
}

-- The outcome of a call was registered in the pipeline of its stream.
abbrev pub enroll : Str → Pipeline → Producer → Producer
enroll stream t p = record p {
  pipelines = Dict.put stream t p.pipelines;
  starting = p.starting - 1;
}

-- The counters in `on_retrier_finish`, for each record that a step of a pipeline finished.
abbrev pub release : Str → Pipeline → ℕ → Producer → Producer
release stream t done p = record p {
  pipelines = Dict.put stream t p.pipelines;
  outstanding = p.outstanding - done;
  permits = p.permits + done;
}

-- `_get_or_create_pipeline`, for a shard map that was entered and started if there is none yet.
unfoldable pub get_or_create_pipeline : Config → ℕ → Str → ShardMap → ℕ → Producer → Producer
get_or_create_pipeline cfg threshold stream m reads p = elim (Dict.get stream p.pipelines) [
  | some existing ↦ p
  | none ↦ record p {
    pipelines = Dict.put stream (build_pipeline cfg threshold stream m reads) p.pipelines;
  }
]

-- A round of `_pending_reporter`.
unfoldable pub report_pending :
    (ℕ → ℕ) → ℕ → Producer → MetricsManager → List SinkCall × MetricsManager × ℕ
report_pending clock reads p m =
    if p.closed
    then ([], m, reads)
    else Metrics.put clock reads p.outstanding
        record { name = user_records_pending; stream = none; shard_id = none; error_code = none } m

module _ (cfg : Config) (map_cfg : ShardMapConfig) (threshold : ℕ) (md5 : Bytes → Bytes)
    (clock : ℕ → ℕ) (queue_add : List Pending → Pending → List Pending)
    (queue_of : List Pending → List Pending) where
  -- What can happen to a producer.
  pub data Turn (p q : Producer) : Type 0 where
    begins : (partition_key : Str) → begin_put partition_key p ≡ ok (some q) → Turn p q
    builds :
        (stream : Str) (m : ShardMap) (reads : ℕ)
        → q ≡ get_or_create_pipeline cfg threshold stream m reads p
        → Turn p q
    -- A call that holds a permit registers its record.
    registers :
        (stream : Str) (t u : Pipeline) (identity : ℕ) (r : UserRecord)
        → 0 < p.starting
        → Dict.get stream p.pipelines ≡ some t
        → Dict.get identity t.pending ≡ none
        → submit cfg map_cfg threshold md5 clock queue_add queue_of identity r t ≡ ok u
        → q ≡ enroll stream u p
        → Turn p q
    -- The explicit hash key of its record is refused.
    refuses :
        (stream : Str) (t : Pipeline) (identity : ℕ) (r : UserRecord) (e : HashError)
        → 0 < p.starting
        → Dict.get stream p.pipelines ≡ some t
        → submit cfg map_cfg threshold md5 clock queue_add queue_of identity r t ≡ err e
        → q ≡ give_up p
        → Turn p q
    -- A step of a pipeline that registers no record.
    works :
        (stream : Str) (t u : Pipeline) (done : ℕ)
        → Dict.get stream p.pipelines ≡ some t
        → Step cfg map_cfg threshold md5 clock queue_add queue_of t 0 done u
        → q ≡ release stream u done p
        → Turn p q

  pub data Comes (p : Producer) : Producer → Type 0 where
    start : Comes p p
    later : {q r : Producer} → Comes p q → Turn q r → Comes p r
