-- ===== src/Reducer/Tests.antt =====
-- Runs of a reducer over the batches of aiokpl/collector.py, and its theorems for them.
use mathlib.Core.List.{Perm}
use aiokpl.Common.{◌⊎◌, ℕ, ◌++◌, ◌≡◌, refl, false, none, some, List, [], ◌∷◌, All, flat_map, map}
use aiokpl.Common.Dict
use aiokpl.Batch.{AggregatedBatch, split_last}
use aiokpl.Collector.{PutRecordsBatch, put_ops, collector_config}
use aiokpl.Collector.PerShard.{put_laws}
use aiokpl.Time.{at}
use aiokpl.Reducer.Split.{IsBuilt, Split, pack_and_split-Split}
use aiokpl.Reducer.Run.{Event, added, flushed, fired, brought, out, run, IsSendable, run-IsSendable}
use aiokpl.Reducer.Interface.{earliest_of, add_each}
use aiokpl.Reducer.Timer.{IsLastSet, after, run-IsArmed}
use aiokpl.Reducer.Sort.{sorted}
use aiokpl.Reducer.{ReducerState, ReducerConfig, new_reducer, pack_and_split, fire}

abbrev due : ℕ → ℕ → AggregatedBatch
due deadline n = record {
  predicted_shard = none;
  items =
      record {
        identity = 1;
        user_record = record {
          partition_key = [];
          content = [];
          explicit_hash_key = none;
          tags = [];
        };
        deadline = deadline;
        hash_key = 0;
        arrival_time = 0;
        attempts = [];
      }
      ∷ [];
  size_estimate = n;
  pk_set = [];
  ehk_set = [];
}

abbrev small_config : ReducerConfig AggregatedBatch PutRecordsBatch
small_config = collector_config 3 100 80

-- The third batch reaches the count, the fired timer of the fourth sends it alone.
abbrev events : List (Event AggregatedBatch)
events =
    added 0 (due 50 10)
    ∷ added 1 (due 40 20)
    ∷ added 2 (due 60 5)
    ∷ added 3 (due 90 7)
    ∷ fired 90 0
    ∷ fired 90 2
    ∷ flushed 91
    ∷ []

abbrev waiting : ReducerState PutRecordsBatch
waiting = record {
  active =
      aiokpl.Collector.add (aiokpl.Collector.add aiokpl.Collector.new_put_batch (due 50 70))
        (due 40 60);
  timer_scope = some 0;
  closed = false;
  started = (0, at 40) ∷ [];
  cancelled = [];
}

-- The item that is due first is packed, and the other stays.
fired-sizes :
    map (λ b. b.size_bytes) (out (fire put_ops small_config 40 0 waiting).0)
      ++ (fire put_ops small_config 40 0 waiting).1.active.size_bytes ∷ []
    ≡ 60 ∷ 70 ∷ []
unfolding fire pack_and_split add_each sorted aiokpl.Collector.add aiokpl.Collector.remove_last
    Dict.get Dict.put Dict.remove split_last
fired-sizes = refl

pack_and_split-Split_example :
    Split put_ops small_config put_laws
      (waiting.active.items)
      (pack_and_split put_ops small_config 5 waiting).0
      (pack_and_split put_ops small_config 5 waiting).1.active.items
    × IsBuilt put_ops small_config put_laws (pack_and_split put_ops small_config 5 waiting).1
pack_and_split-Split_example = pack_and_split-Split put_ops small_config put_laws 5 waiting

run-IsSendable_example :
    Perm
      (flat_map
          (λ b. b.items)
          (run put_ops small_config events (new_reducer put_ops small_config)).0
        ++ (run put_ops small_config events (new_reducer put_ops small_config)).1.active.items)
      (flat_map brought events)
    × All
        (IsSendable put_ops small_config)
        (run put_ops small_config events (new_reducer put_ops small_config)).0
run-IsSendable_example = run-IsSendable put_ops small_config put_laws events

run-IsArmed_example :
    ((put_ops.count (after put_ops small_config events).active ≡ 0)
      ⊎ IsLastSet put_ops small_config events)
    × (put_ops.deadline (after put_ops small_config events).active
        ≡ earliest_of put_ops.item_deadline (after put_ops small_config events).active.items)
run-IsArmed_example = run-IsArmed put_ops small_config put_laws events
