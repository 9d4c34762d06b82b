-- ===== src/Pipeline/Types.antt =====
-- `_StreamPipeline` of aiokpl/producer.py with its outcomes and tasks, the jobs of a task, and what
-- becomes of an outcome.
use aiokpl.Common.{
  ℕ, zero, suc, Bool, true, false, Option, none, some, List, [], ◌∷◌, if◌then◌else◌,
}
use aiokpl.Common.Dict
use aiokpl.Common.Dict.{Dict}
use aiokpl.Common.Eq.{nat_Eq}
use aiokpl.Common.Result.{Result, ok, err}
use aiokpl.Aggregation.Types.{Str}
use aiokpl.Attempt.{RecordResult}
use aiokpl.Batch.{BufferedRecord, AggregatedBatch}
use aiokpl.Collector.{PutRecordsBatch}
use aiokpl.Reducer.{ReducerState}
use aiokpl.ShardMap.{ShardMap}
use aiokpl.Aggregator.{Aggregator, AggregatorError}
use aiokpl.Limiter.{Limiter, LimiterError, Dispatched}
use aiokpl.Sender.{SendError}
use aiokpl.Retrier.{Action}
use aiokpl.Outcome.{Outcome, is_set, set_value, set_exception}

-- `SyncOutcomeCancelled` of aiokpl/sync.py, the one exception that an outcome is set with.
pub data Cancelled : Type 0 where
  cancelled : Cancelled

-- An `Outcome[RecordResult]`.
abbrev pub RecordOutcome : Type 0
RecordOutcome = Outcome RecordResult Cancelled

-- A job of a task: a call that a stage or a callback makes.
pub data Job : Type 0 where
  aggregate : BufferedRecord → Job
  limit : AggregatedBatch → Job
  dispatched : Dispatched → Job
  acts : Action → Job
  flush_aggregator flush_limiter flush_collector : Job

-- `_StreamPipeline`, where `pending` has the number of each outcome; then the outcomes that were
-- made, the tasks that run, and the batches whose task waits for the reply of the service.
pub record Pipeline : Type 0 where
  pub stream : Str
  pub shard_map : ShardMap
  pub aggregator : Aggregator
  pub limiter : Limiter
  pub collector : ReducerState PutRecordsBatch
  pub pending : Dict ℕ ℕ
  pub outcomes : List RecordOutcome
  pub tasks : List (List Job)
  pub in_flight : List PutRecordsBatch
  pub reads : ℕ

pub data PipelineError : Type 0 where
  aggregator_error : AggregatorError → PipelineError
  limiter_error : LimiterError → PipelineError
  send_error : SendError → PipelineError

abbrev pub or_aggregator : {A : Type 0} → Result AggregatorError A → Result PipelineError A
or_aggregator (ok a) = ok a
or_aggregator (err e) = err (aggregator_error e)

abbrev pub or_limiter : {A : Type 0} → Result LimiterError A → Result PipelineError A
or_limiter (ok a) = ok a
or_limiter (err e) = err (limiter_error e)

abbrev pub or_send : {A : Type 0} → Result SendError A → Result PipelineError A
or_send (ok a) = ok a
or_send (err e) = err (send_error e)

-- The outcome with this number is changed in place.
unfoldable pub change :
    ℕ → (RecordOutcome → RecordOutcome) → List RecordOutcome → List RecordOutcome
change n f [] = []
change zero f (o ∷ os) = f o ∷ os
change (suc n) f (o ∷ os) = o ∷ change n f os

-- `if not outcome.is_set(): outcome.set_value(result)`
unfoldable pub settle : RecordResult → RecordOutcome → RecordOutcome
unfolding is_set set_value
settle result o = if is_set o then o else elim (set_value result o) [ ok o' ↦ o' | err raised ↦ o ]

-- `_cancel` of aiokpl/sync.py: whether this call cancelled the outcome, and the outcome.
unfoldable pub cancel : RecordOutcome → Bool × RecordOutcome
unfolding is_set set_exception
cancel o =
    if is_set o
    then (false, o)
    else elim (set_exception cancelled o) [ ok o' ↦ (true, o') | err raised ↦ (false, o) ]

-- `outcome is not None`, then `settle`.
unfoldable pub settle_found : Option ℕ → RecordResult → List RecordOutcome → List RecordOutcome
unfolding change settle
settle_found none result outcomes = outcomes
settle_found (some n) result outcomes = change n (settle result) outcomes

-- `on_retrier_finish`, but for the counters of the producer.
unfoldable pub on_retrier_finish : BufferedRecord → RecordResult → Pipeline → Pipeline
unfolding settle_found
on_retrier_finish x result p = record p {
  outcomes = settle_found (Dict.get x.identity p.pending) result p.outcomes;
  pending = Dict.remove x.identity p.pending;
}
