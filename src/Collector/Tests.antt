-- ===== src/Collector/Tests.antt =====
-- Runs of a `PutRecords` batch, and its theorems at concrete batches.
use aiokpl.Common.{ℕ, ◌≡◌, refl, Option, none, some, List, [], ◌∷◌}
use aiokpl.Reducer.Interface.{built, add_each}
use aiokpl.Common.Dict
use aiokpl.Batch.{AggregatedBatch}
use aiokpl.Collector.{PutRecordsBatch, per_shard_bytes, add, remove_last, put_ops}
use aiokpl.Collector.PerShard.{shard_size, per_shard_bytes-built, remove_last-add_restores}

abbrev sized : Option ℕ → ℕ → AggregatedBatch
sized shard n = record {
  predicted_shard = shard;
  items = [];
  size_estimate = n;
  pk_set = [];
  ehk_set = [];
}

abbrev three : List AggregatedBatch
three = sized (some 1) 10 ∷ sized none 20 ∷ sized (some 1) 30 ∷ []

bytes-three : per_shard_bytes (built put_ops three) (some 1) ≡ 40
unfolding per_shard_bytes add add_each Dict.get Dict.put
bytes-three = refl

per_shard_bytes-built_example :
    per_shard_bytes (built put_ops three) (some 1) ≡ shard_size (some 1) three
per_shard_bytes-built_example = per_shard_bytes-built three (some 1)

remove_last-add_restores_example :
    (b : PutRecordsBatch) × (remove_last (add (built put_ops three) (sized none 5))
      ≡ some (sized none 5, b))
    × (b.items ≡ (built put_ops three).items)
    × (b.size_bytes ≡ (built put_ops three).size_bytes)
    × (per_shard_bytes b (some 1) ≡ per_shard_bytes (built put_ops three) (some 1))
remove_last-add_restores_example = remove_last-add_restores three (sized none 5) (some 1)
