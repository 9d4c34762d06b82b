-- ===== src/Aggregator/Tests.antt =====
-- The theorems of the aggregator, for a record of a map that predicts shard 1.
use aiokpl.Common.{◌≡◌, refl, true, false, Option, none, some, [], ◌∷◌}
use aiokpl.Common.Dict
use aiokpl.Common.Result.{ok}
use aiokpl.Batch.{BufferedRecord, AggregatedBatch, batch_ops, add}
use aiokpl.Reducer
use aiokpl.Reducer.{new_reducer}
use aiokpl.ShardMap.Types.{ready}
use aiokpl.ShardMap.Bisect.{bisect_left}
use aiokpl.ShardMap.{ShardMap, predict}
use aiokpl.Aggregator.{
  AggregatorConfig, Aggregator, new_aggregator, enter, reducer_config, existing_or_new,
  get_or_create_reducer, put_buffered,
}
use aiokpl.Aggregator.Route.{Put, put_buffered-Put}

abbrev cfg : AggregatorConfig
cfg = record {
  aggregation_enabled = true;
  buffered_time = 100;
  aggregation_max_count = 5;
  aggregation_max_size = 1000;
}

abbrev shard_map : ShardMap
shard_map = record {
  state = ready;
  snapshot = record { endings = 99 ∷ 199 ∷ []; shard_ids = 0 ∷ 1 ∷ []; shards = [] };
  closed_at = [];
  updated_at = some 0;
  backoff = 1;
  refresh_done = true;
  refresh_in_flight = false;
  cleanup_scope = none;
  refresh_scope = none;
  closed = false;
  spawned = 0;
  cancelled = [];
}

abbrev buffered : BufferedRecord
buffered = record {
  identity = 1;
  user_record = record {
    partition_key = 97 ∷ [];
    content = 1 ∷ [];
    explicit_hash_key = none;
    tags = [];
  };
  deadline = 100;
  hash_key = 150;
  arrival_time = 0;
  attempts = [];
}

abbrev put_result : Option AggregatedBatch × Aggregator
put_result = (
  none,
  record (enter new_aggregator) {
    reducers =
        (
          some 1,
          (Reducer.add (batch_ops (some 1)) (reducer_config cfg) 0 buffered
              (new_reducer (batch_ops (some 1)) (reducer_config cfg))).1,
        )
        ∷ [];
  },
)

put_buffered-first : put_buffered cfg 0 shard_map buffered (enter new_aggregator) ≡ ok put_result
unfolding put_buffered get_or_create_reducer existing_or_new Reducer.add add Dict.get Dict.put
    predict bisect_left aiokpl.Aggregation.Utf8.utf8_encode
put_buffered-first = refl

put_buffered-Put_example : Put cfg (some 1) (some 0) buffered (enter new_aggregator) put_result
unfolding predict bisect_left
put_buffered-Put_example =
    put_buffered-Put cfg 0 shard_map (some 0) buffered (enter new_aggregator) put_result refl tt
      put_buffered-first
