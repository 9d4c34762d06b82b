-- ===== src/Pipeline.antt =====
-- `_StreamPipeline` of aiokpl/producer.py and the callbacks that `Producer._build_pipeline` joins
-- its stages with. A task is the list of what it has yet to do: a step of a task takes its first
-- job, and the callbacks that the job calls come next, before the rest. The stages' clock is a
-- function of the count of readings. The sorted queue of the limiter, MD5 and the client of the
-- service are parameters. The retrier classifies a report in one step, against the shard map of
-- that time, and calls back from there on.
pub mod Types
pub mod Contents
pub mod Stages
pub mod Perform
pub mod Step
pub mod Balance
pub mod Stepped
pub mod Jobs
pub mod Replies
pub mod Timers
pub mod Settled
pub mod Resolved
pub mod System
mod Tests
use aiokpl.Common.{
  ℕ, zero, suc, ◌+◌, Bool, true, false, Option, none, some, List, [], ◌∷◌, ◌++◌, map, if◌then◌else◌,
  get_elem?, length,
}
use aiokpl.Common.Dict
use aiokpl.Common.Dict.{Dict}
use aiokpl.Common.Eq.{Eq, nat_Eq}
use aiokpl.Common.Result.{Result, ok, err, ◌>>=◌}
use aiokpl.Aggregation.Types.{Bytes, Str, UserRecord}
use aiokpl.Attempt.{RecordResult}
use aiokpl.Batch.{BufferedRecord, AggregatedBatch, batch_ops}
use aiokpl.Collector
use aiokpl.Collector.{PutRecordsBatch, put_ops, collector_config}
use aiokpl.Reducer
use aiokpl.Reducer.{new_reducer, ReducerState}
use aiokpl.Reducer.Run.{out}
use aiokpl.ShardMap
use aiokpl.ShardMap.{ShardMap, ShardMapConfig}
use aiokpl.Aggregator
use aiokpl.Aggregator.{new_aggregator, Aggregator, AggregatorError}
use aiokpl.Limiter
use aiokpl.Limiter.{
  new_limiter, Pending, Limiter, LimiterError, Dispatched, expires, admits, bucket_error,
}
use aiokpl.Sender.{SendOutcome, SendError, Entry, Reply, send}
use aiokpl.Retrier.{Action, finish, retry, invalidate, handle}
use aiokpl.Outcome.{Outcome, new_outcome, is_set, set_value, set_exception}
use aiokpl.Texts.{expired_error_code, expired_error_message}
use aiokpl.Config.{Config, aggregator_config, limiter_config, retrier_config}
use aiokpl.Pipeline.Types.{
  Cancelled, cancelled, RecordOutcome, Job, aggregate, limit, dispatched, acts, flush_aggregator,
  flush_limiter, flush_collector, Pipeline, PipelineError, limiter_error, or_aggregator, or_limiter,
  or_send, change, settle, cancel, settle_found, on_retrier_finish,
}
use aiokpl.Hashing.{HashError}

-- What a step of a task does: the jobs that come next, the pipeline, and how many records it
-- finished.
abbrev pub Progress : Type 0
Progress = List Job × Pipeline × ℕ

module _ (cfg : Config) (map_cfg : ShardMapConfig) (threshold : ℕ) (md5 : Bytes → Bytes)
    (clock : ℕ → ℕ) (queue_add : List Pending → Pending → List Pending)
    (queue_of : List Pending → List Pending) where
  -- `retrier.handle`: its callbacks, and the pipeline with the clock read.
  unfoldable pub handle_report : SendOutcome → Pipeline → List Job × Pipeline
  handle_report o p =
      let (actions, reads) =
        handle (retrier_config cfg) clock (λ r shard. ShardMap.hashrange shard p.shard_map) p.reads
          o in
      (map acts actions, record p { reads = reads })

  -- The report that `_handle_expired` makes.
  unfoldable pub expired_report : AggregatedBatch → Pipeline → SendOutcome
  expired_report batch p = record {
    stream_name = p.stream;
    started_at = clock p.reads;
    ended_at = clock p.reads;
    request_error =
        some (expired_error_code, expired_error_message ++ (58 ∷ 32 ∷ [] ++ expired_error_code));
    per_record = [];
    batch_items = batch ∷ [];
  }

  -- `_handle_expired`
  unfoldable pub handle_expired : AggregatedBatch → Pipeline → List Job × Pipeline
  unfolding handle_report expired_report
  handle_expired batch p = handle_report (expired_report batch p) (record p { reads = p.reads + 1 })

  -- What is handed to `on_collector_batch` starts a task that sends it.
  abbrev pub collected : Option PutRecordsBatch × ReducerState PutRecordsBatch → Pipeline → Pipeline
  collected (batch, collector) p = record p {
    collector = collector;
    in_flight = p.in_flight ++ out batch;
    reads = p.reads + 1;
  }

  -- `on_retrier_finish`, `on_retrier_retry` and `ShardMap.invalidate`
  unfoldable pub act : Action → Pipeline → Progress
  unfolding on_retrier_finish
  act (finish x result) p = ([], on_retrier_finish x result p, 1)
  act (retry x) p = (aggregate x ∷ [], p, 0)
  act (invalidate seen_at shard) p =
      ([], record p { shard_map = ShardMap.invalidate map_cfg seen_at shard p.shard_map }, 0)

  -- A step of a task: its first job.
  unfoldable pub perform : Job → Pipeline → Result PipelineError Progress
  unfolding handle_expired act
  perform (aggregate x) p = do
    (batch, aggregator) ←
        or_aggregator (
          Aggregator.put_buffered (aggregator_config cfg) (clock p.reads) p.shard_map x
            p.aggregator)
    ok (map limit (out batch), record p { aggregator = aggregator; reads = p.reads + 1 }, 0)
  perform (limit batch) p = do
    (calls, limiter, reads) ←
        or_limiter
          (Limiter.put queue_add queue_of (limiter_config cfg) clock p.reads batch p.limiter)
    ok (map dispatched calls, record p { limiter = limiter; reads = reads }, 0)
  perform (dispatched (expires batch)) p =
      let (jobs, p') = handle_expired batch p in ok (jobs, p', 0)
  perform (dispatched (admits batch)) p = ok (
    [],
    collected
        (Collector.put cfg.collection_max_count cfg.collection_max_size threshold (clock p.reads)
          batch p.collector)
        p,
    0,
  )
  perform (acts action) p = ok (act action p)
  perform flush_aggregator p =
      let (batches, aggregator) =
        Aggregator.flush (aggregator_config cfg) (clock p.reads) p.aggregator in
      ok (map limit batches, record p { aggregator = aggregator; reads = p.reads + 1 }, 0)
  perform flush_limiter p =
      let (calls, limiter, reads) = Limiter.flush clock p.reads p.limiter in
      ok (map dispatched calls, record p { limiter = limiter; reads = reads }, 0)
  perform flush_collector p = ok (
    [],
    collected
        (Collector.flush cfg.collection_max_count cfg.collection_max_size threshold (clock p.reads)
          p.collector)
        p,
    0,
  )

  -- `_send_and_handle` of a batch, by the reply of the service.
  unfoldable pub send_and_handle :
      (List Entry → Reply) → PutRecordsBatch → Pipeline → Result PipelineError (List Job × Pipeline)
  unfolding handle_report
  send_and_handle put_records batch p = do
    o ← or_send (send md5 p.stream put_records (clock p.reads) (clock (p.reads + 1)) batch)
    ok (handle_report o (record p { reads = p.reads + 2 }))

  -- A timer of the aggregator fires: a task hands the batch on.
  unfoldable pub fire_aggregator : Option ℕ → ℕ → Pipeline → Pipeline
  fire_aggregator shard scope p =
      let (batch, aggregator) =
        Aggregator.fire (aggregator_config cfg) (clock p.reads) shard scope p.aggregator in
      record p {
        aggregator = aggregator;
        reads = p.reads + 1;
        tasks = p.tasks ++ map limit (out batch) ∷ [];
      }

  -- A timer of the collector fires.
  unfoldable pub fire_collector : ℕ → Pipeline → Pipeline
  fire_collector scope p =
      collected
        (Reducer.fire put_ops
          (collector_config cfg.collection_max_count cfg.collection_max_size threshold)
          (clock p.reads) scope p.collector)
        p

  -- A round of the limiter's drain task.
  unfoldable pub drain_tick : Pipeline → Result PipelineError Pipeline
  drain_tick p = elim (Limiter.drain_round queue_add queue_of clock p.reads p.limiter) [
    | ok (calls, limiter, reads) ↦
        ok record p {
          limiter = limiter;
          reads = reads;
          tasks = p.tasks ++ map dispatched calls ∷ [];
        }
    | err e ↦ err (limiter_error (bucket_error e))
  ]

  -- The part of `put_record` behind `_get_or_create_pipeline`, for a new object with this identity:
  -- its outcome is registered, and `put_buffered` is its task.
  unfoldable pub submit : ℕ → UserRecord → Pipeline → Result HashError Pipeline
  submit identity r p = do
    x ← Aggregator.build_buffered (aggregator_config cfg) md5 (clock p.reads) identity r
    ok record p {
      pending = Dict.put identity (length p.outcomes) p.pending;
      outcomes = p.outcomes ++ new_outcome ∷ [];
      tasks = p.tasks ++ (aggregate x ∷ []) ∷ [];
      reads = p.reads + 1;
    }

-- `_build_pipeline`, for a shard map that was entered: the stages are entered, and new.
abbrev pub build_pipeline : Config → ℕ → Str → ShardMap → ℕ → Pipeline
build_pipeline cfg threshold stream shard_map reads = record {
  stream = stream;
  shard_map = shard_map;
  aggregator = Aggregator.enter new_aggregator;
  limiter = Limiter.enter new_limiter;
  collector =
      new_reducer put_ops
        (collector_config cfg.collection_max_count cfg.collection_max_size threshold);
  pending = [];
  outcomes = [];
  tasks = [];
  in_flight = [];
  reads = reads;
}

-- `flush` for this pipeline: a task calls the three stages in turn.
abbrev pub start_flush : Pipeline → Pipeline
start_flush p = record p {
  tasks = p.tasks ++ (flush_aggregator ∷ flush_limiter ∷ flush_collector ∷ []) ∷ [];
}

-- A caller cancels an outcome that it was given.
unfoldable pub cancel_outcome : ℕ → Pipeline → Pipeline
unfolding change cancel
cancel_outcome n p = record p { outcomes = change n (λ o. (cancel o).1) p.outcomes }
