-- ===== src/Aggregator.antt =====
-- `Aggregator` of aiokpl/aggregator.py: a reducer for each predicted shard. What an operation hands
-- to `on_batch_ready` is its result, in order. The clock's times are arguments; the metric of
-- received records is left out, as with `metrics=None`.
pub mod Route
pub mod Contents
mod Tests
use aiokpl.Common.{
  ℕ, ◌+◌, Bool, true, false, Option, none, some, List, [], ◌∷◌, ◌++◌, if◌then◌else◌,
}
use aiokpl.Common.Eq.{Eq, nat_Eq, option_Eq}
use aiokpl.Common.Dict
use aiokpl.Common.Dict.{Dict}
use aiokpl.Common.Result.{Result, ok, err, ◌>>=◌}
use aiokpl.Aggregation.Types.{Bytes, Str, UserRecord}
use aiokpl.Hashing.{HashError, md5_hash_key, parse_explicit_hash_key}
use aiokpl.Batch.{BufferedRecord, AggregatedBatch, batch_ops}
use aiokpl.Reducer
use aiokpl.Reducer.{ReducerState, ReducerConfig, new_reducer}
use aiokpl.ShardMap.{ShardMap, is_ready}
use aiokpl.ShardMap

pub record AggregatorConfig : Type 0 where
  pub aggregation_enabled : Bool
  pub buffered_time : ℕ
  pub aggregation_max_count : ℕ
  pub aggregation_max_size : ℕ

pub record Aggregator : Type 0 where
  pub reducers : Dict (Option ℕ) (ReducerState AggregatedBatch)
  pub closed : Bool
  -- `_tg is not None`
  pub entered : Bool

-- `RuntimeError` outside the context manager.
pub data AggregatorError : Type 0 where
  not_entered : AggregatorError

abbrev pub new_aggregator : Aggregator
new_aggregator = record { reducers = []; closed = false; entered = false }

-- `__aenter__`
abbrev pub enter : Aggregator → Aggregator
enter a = record a { entered = true }

module _ (cfg : AggregatorConfig) where
  open cfg use {aggregation_enabled, buffered_time, aggregation_max_count, aggregation_max_size}

  -- The limits that every reducer is made with.
  abbrev pub reducer_config : ReducerConfig BufferedRecord AggregatedBatch
  reducer_config = record {
    count_limit = if aggregation_enabled then aggregation_max_count else 1;
    size_limit = aggregation_max_size;
    flush_predicate = none;
  }

  -- `build_buffered`, at the clock's time `now`, for a new object with this identity.
  unfoldable pub build_buffered :
      (Bytes → Bytes) → ℕ → ℕ → UserRecord → Result HashError BufferedRecord
  build_buffered md5 now identity r = do
    hash_key ← elim r.explicit_hash_key [
      | some text ↦ parse_explicit_hash_key text
      | none ↦ ok (md5_hash_key md5 r.partition_key)
    ]
    ok record {
      identity = identity;
      user_record = r;
      deadline = now + buffered_time;
      hash_key = hash_key;
      arrival_time = now;
      attempts = [];
    }

  -- `_get_or_create_reducer`, by what `self._reducers.get(predicted)` gives.
  unfoldable pub existing_or_new :
      Option ℕ
      → Aggregator
      → Option (ReducerState AggregatedBatch)
      → Result AggregatorError (ReducerState AggregatedBatch × Aggregator)
  existing_or_new predicted a (some existing) = ok (existing, a)
  existing_or_new predicted a none =
      let reducer = new_reducer (batch_ops predicted) reducer_config in
      if a.entered
      then ok (reducer, record a { reducers = Dict.put predicted reducer a.reducers })
      else err not_entered

  unfoldable pub get_or_create_reducer :
      Option ℕ → Aggregator → Result AggregatorError (ReducerState AggregatedBatch × Aggregator)
  unfolding existing_or_new
  get_or_create_reducer predicted a = existing_or_new predicted a (Dict.get predicted a.reducers)

  -- The shard that `put_buffered` predicts.
  abbrev pub predicted_of : ShardMap → BufferedRecord → Option ℕ
  predicted_of m x = if is_ready m.state then ShardMap.predict x.hash_key m else none

  -- `put_buffered`
  unfoldable pub put_buffered :
      ℕ
      → ShardMap
      → BufferedRecord
      → Aggregator
      → Result AggregatorError (Option AggregatedBatch × Aggregator)
  unfolding get_or_create_reducer
  put_buffered now m x a =
      let predicted = predicted_of m x in
      do
        (reducer, a') ← get_or_create_reducer predicted a
        let (closed, reducer') = Reducer.add (batch_ops predicted) reducer_config now x reducer
        ok (closed, record a' { reducers = Dict.put predicted reducer' a'.reducers })

  -- The loop of `flush` over the reducers: the batches that come out, and the reducers after it.
  unfoldable pub flush_each :
      ℕ
      → Dict (Option ℕ) (ReducerState AggregatedBatch)
      → List AggregatedBatch × Dict (Option ℕ) (ReducerState AggregatedBatch)
  flush_each now [] = ([], [])
  flush_each now ((shard, reducer) ∷ reducers) =
      let (closed, reducer') = Reducer.flush (batch_ops shard) reducer_config now reducer in
      let (batches, reducers') = flush_each now reducers in
      (
        (elim closed [ some batch ↦ batch ∷ batches | none ↦ batches ]),
        (shard, reducer') ∷ reducers',
      )

  -- `flush`
  unfoldable pub flush : ℕ → Aggregator → List AggregatedBatch × Aggregator
  unfolding flush_each
  flush now a =
      let (batches, reducers) = flush_each now a.reducers in
      (batches, record a { reducers = reducers })

  -- A timer of the reducer for a shard fires: the batch that `on_deadline` hands on.
  unfoldable pub fire : ℕ → Option ℕ → ℕ → Aggregator → Option AggregatedBatch × Aggregator
  fire now shard scope a = elim (Dict.get shard a.reducers) [
    | some reducer ↦
        let (batch, reducer') = Reducer.fire (batch_ops shard) reducer_config now scope reducer in
        (batch, record a { reducers = Dict.put shard reducer' a.reducers })
    | none ↦ (none, a)
  ]

-- `aclose`: the reducers are closed, their items are lost, and the dict is cleared.
unfoldable pub aclose : Aggregator → Aggregator
aclose a = record a { closed = true; reducers = [] }
