-- ===== src/Collector.antt =====
-- aiokpl/collector.py: `PutRecordsBatch`, the aggregated batches of one `PutRecords` call with the
-- bytes of each shard, and the flush predicate of `Collector`. `Collector.put`, `flush` and
-- `aclose` hand on to the reducer of aiokpl/reducer.py.
pub mod PerShard
mod Tests
use aiokpl.Common.{
  ℕ, zero, suc, ◌+◌, ◌-◌, ◌*◌, ◌^◌, Bool, true, false, Option, none, some, List, [], ◌∷◌, ◌++◌, leb,
  ◌==◌, if◌then◌else◌, length,
}
use aiokpl.Common.Eq.{Eq, nat_Eq, option_Eq}
use aiokpl.Common.Dict
use aiokpl.Common.Dict.{Dict}
use aiokpl.Time.{Deadline, never, earlier}
use aiokpl.Batch.{AggregatedBatch, earliest, split_last}
use aiokpl.Reducer.Interface.{BatchOps}
use aiokpl.Reducer
use aiokpl.Reducer.{ReducerState, ReducerConfig}

pub record PutRecordsBatch : Type 0 where
  pub items : List AggregatedBatch
  pub size_bytes : ℕ
  pub shard_bytes : Dict (Option ℕ) ℕ

abbrev pub new_put_batch : PutRecordsBatch
new_put_batch = record { items = []; size_bytes = 0; shard_bytes = [] }

-- `d.get(k, 0)`
abbrev pub or_zero : Option ℕ → ℕ
or_zero none = 0
or_zero (some n) = n

-- `per_shard_bytes`
unfoldable pub per_shard_bytes : PutRecordsBatch → Option ℕ → ℕ
per_shard_bytes b shard = or_zero (Dict.get shard b.shard_bytes)

-- `PutRecordsBatch.add`
unfoldable pub add : PutRecordsBatch → AggregatedBatch → PutRecordsBatch
add b item = record {
  items = b.items ++ item ∷ [];
  size_bytes = b.size_bytes + item.size_estimate;
  shard_bytes =
      Dict.put item.predicted_shard
        (or_zero (Dict.get item.predicted_shard b.shard_bytes) + item.size_estimate) b.shard_bytes;
}

-- `PutRecordsBatch.remove_last`: `none` for the `IndexError` of an empty batch and the `KeyError`
-- of a shard without bytes. A total of 0 or less is 0 here.
unfoldable pub remove_last : PutRecordsBatch → Option (AggregatedBatch × PutRecordsBatch)
unfolding split_last
remove_last b = elim (split_last b.items) [
  | some (kept, item) ↦ elim (Dict.get item.predicted_shard b.shard_bytes) [
    | some total ↦
        let new_total = total - item.size_estimate in
        some (
          item,
          record {
            items = kept;
            size_bytes = b.size_bytes - item.size_estimate;
            shard_bytes =
                if new_total == 0
                then Dict.remove item.predicted_shard b.shard_bytes
                else Dict.put item.predicted_shard new_total b.shard_bytes;
          },
        )
    | none ↦ none
  ]
  | none ↦ none
]

abbrev pub earliest_batch : List AggregatedBatch → Deadline
earliest_batch [] = never
earliest_batch (b ∷ bs) = earlier (earliest b.items) (earliest_batch bs)

abbrev pub put_ops : BatchOps AggregatedBatch PutRecordsBatch
put_ops = record {
  empty = new_put_batch;
  add = add;
  remove_last = remove_last;
  items = λ b. b.items;
  count = λ b. length b.items;
  size = λ b. b.size_bytes;
  deadline = λ b. earliest_batch b.items;
  item_deadline = λ b. earliest b.items;
}

-- The reducer that `__aenter__` makes, of the three limits of the constructor.
abbrev pub collector_config : ℕ → ℕ → ℕ → ReducerConfig AggregatedBatch PutRecordsBatch
collector_config max_count max_size threshold = record {
  count_limit = max_count;
  size_limit = max_size;
  flush_predicate =
      some
        (λ just_added current. leb threshold (per_shard_bytes current just_added.predicted_shard));
}

module _ (max_count max_size threshold : ℕ) where
  -- `Collector.put`: the batch that is handed to `on_batch_ready`, if one is.
  unfoldable pub put :
      ℕ
      → AggregatedBatch
      → ReducerState PutRecordsBatch
      → Option PutRecordsBatch × ReducerState PutRecordsBatch
  put now batch s = Reducer.add put_ops (collector_config max_count max_size threshold) now batch s

  -- `Collector.flush`
  unfoldable pub flush :
      ℕ → ReducerState PutRecordsBatch → Option PutRecordsBatch × ReducerState PutRecordsBatch
  flush now s = Reducer.flush put_ops (collector_config max_count max_size threshold) now s
