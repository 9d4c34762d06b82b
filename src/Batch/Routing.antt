-- ===== src/Batch/Routing.antt =====
-- How a batch is addressed at the service.
use aiokpl.Common.{ℕ, ◌^◌, ◌<◌, ◌≡◌, refl, true, Option, some, List, [], ◌∷◌, arith, length, ltb}
use aiokpl.Common.Result.{ok}
use aiokpl.Reducer.Interface.{built}
use aiokpl.Hashing.{decimal, parse_explicit_hash_key}
use aiokpl.Hashing.RoundTrip.{parse_explicit_hash_key-decimal}
use aiokpl.Batch.{BufferedRecord, batch_ops, routing_partition_key, routing_explicit_hash_key}
use aiokpl.Batch.Undo.{items-built}

-- A batch of two records or more is addressed by the partition key `"a"` and an explicit hash key
-- that parses to the hash key of its first record, if that is below `2 ^ 128`; a batch of one
-- record is addressed by the keys of the record.
pub routing-built :
    (shard : Option ℕ) (x y : BufferedRecord) (xs : List BufferedRecord)
    → x.hash_key < 2 ^ 128
    → (routing_partition_key (built (batch_ops shard) (x ∷ y ∷ xs)) ≡ some (97 ∷ []))
      × (routing_explicit_hash_key (built (batch_ops shard) (x ∷ y ∷ xs))
          ≡ some (some (decimal x.hash_key)))
      × (parse_explicit_hash_key (decimal x.hash_key) ≡ ok x.hash_key)
      × (routing_partition_key (built (batch_ops shard) (x ∷ []))
          ≡ some x.user_record.partition_key)
      × (routing_explicit_hash_key (built (batch_ops shard) (x ∷ []))
          ≡ some x.user_record.explicit_hash_key)
unfolding routing_partition_key routing_explicit_hash_key
routing-built shard x y xs h =
    let many : ltb 1 (length (x ∷ y ∷ xs)) ≡ true = ground arith in
    (
      rw (items-built shard (x ∷ y ∷ xs), many) refl,
      rw (items-built shard (x ∷ y ∷ xs), many) refl,
      parse_explicit_hash_key-decimal x.hash_key h,
      rw (items-built shard (x ∷ [])) refl,
      rw (items-built shard (x ∷ [])) refl,
    )
