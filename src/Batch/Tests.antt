-- ===== src/Batch/Tests.antt =====
-- Runs of an aggregated batch, and its theorems at concrete records.
use aiokpl.Common.{◌+◌, ◌≡◌, refl, none, some, [], ◌∷◌, arith, flat_map}
use aiokpl.Common.Result.{ok}
use aiokpl.Aggregation.Utf8.{utf8_encode}
use aiokpl.Reducer.Interface.{built, add_each}
use aiokpl.Hashing.{decimal, parse_explicit_hash_key}
use aiokpl.Batch.{
  BufferedRecord, add, remove_last, batch_ops, routing_partition_key, routing_explicit_hash_key,
}
use aiokpl.Batch.Undo.{remove_last-add}
use aiokpl.Batch.Size.{records_cost, keys_cost, distinct_from, pk_of, ehk_of, size-built}
use aiokpl.Batch.Routing.{routing-built}

abbrev a : BufferedRecord
a = record {
  identity = 1;
  user_record = record {
    partition_key = 97 ∷ [];
    content = 1 ∷ 2 ∷ [];
    explicit_hash_key = some (55 ∷ []);
    tags = [];
  };
  deadline = 100;
  hash_key = 7;
  arrival_time = 0;
  attempts = [];
}

abbrev b : BufferedRecord
b = record {
  identity = 2;
  user_record = record {
    partition_key = 97 ∷ [];
    content = 3 ∷ [];
    explicit_hash_key = none;
    tags = [];
  };
  deadline = 50;
  hash_key = 9;
  arrival_time = 1;
  attempts = [];
}

-- Two records with the same partition key: it is counted once.
size-shared_key : (built (batch_ops (some 4)) (a ∷ b ∷ [])).size_estimate ≡ 27
unfolding add add_each utf8_encode
size-shared_key = refl

remove_last-add_example :
    remove_last (add (built (batch_ops (some 4)) (a ∷ [])) b)
    ≡ some (b, built (batch_ops (some 4)) (a ∷ []))
remove_last-add_example = remove_last-add (some 4) (a ∷ []) b

size-built_example :
    (built (batch_ops (some 4)) (a ∷ b ∷ [])).size_estimate
    ≡ records_cost (a ∷ b ∷ [])
      + (keys_cost (distinct_from [] (flat_map pk_of (a ∷ b ∷ [])))
          + keys_cost (distinct_from [] (flat_map ehk_of (a ∷ b ∷ []))))
size-built_example = size-built (some 4) (a ∷ b ∷ [])

routing-built_example :
    (routing_partition_key (built (batch_ops none) (a ∷ b ∷ [])) ≡ some (97 ∷ []))
    × (routing_explicit_hash_key (built (batch_ops none) (a ∷ b ∷ [])) ≡ some (some (decimal 7)))
    × (parse_explicit_hash_key (decimal 7) ≡ ok 7)
    × (routing_partition_key (built (batch_ops none) (a ∷ [])) ≡ some (97 ∷ []))
    × (routing_explicit_hash_key (built (batch_ops none) (a ∷ [])) ≡ some (some (55 ∷ [])))
routing-built_example = routing-built none a b [] (omega arith)
