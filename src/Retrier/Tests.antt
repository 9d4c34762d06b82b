-- ===== src/Retrier/Tests.antt =====
-- Runs of the retrier on a report of one failed and one misplaced record, and its theorems there.
use aiokpl.Common.{
  ℕ, ◌+◌, ◌*◌, ◌≡◌, refl, inr, true, false, Option, none, some, [], ◌∷◌, ◌++◌, flat_map, All,
}
use aiokpl.Hashing.{digits_value}
use aiokpl.ShardMap.Parse.{shard_prefix}
use aiokpl.Batch.{BufferedRecord, AggregatedBatch}
use aiokpl.Sender.{PerRecordOutcome, SendOutcome}
use aiokpl.Sender.Aligned.{IsAligned}
use aiokpl.Retrier.Dispatch.{settles, origins, handle-settles}
use aiokpl.Retrier.Verdict.{IsSound, handle-IsSound}
use aiokpl.Retrier.{
  RetrierConfig, Action, finish, retry, invalidate, parse_actual_shard_id, finish_success,
  retry_not_expired, fail_or_retry, fail_items, check_range, check_all, handle_success,
  handle_per_record, handle_each, handle_by, handle,
}

abbrev cfg : RetrierConfig
cfg = record { record_ttl = 30; fail_if_throttled = true; retry_deadline = 10 }

abbrev clock : ℕ → ℕ
clock reads = 20 + 5 * reads

-- Shard 2 has the keys up to 99.
abbrev hashrange : ℕ → ℕ → Option (ℕ × ℕ)
hashrange reads shard = some (0, 99)

abbrev buffered : ℕ → BufferedRecord
buffered hash_key = record {
  identity = 1;
  user_record = record {
    partition_key = 97 ∷ [];
    content = [];
    explicit_hash_key = none;
    tags = [];
  };
  deadline = 1;
  hash_key = hash_key;
  arrival_time = 0;
  attempts = [];
}

abbrev batch_of : ℕ → AggregatedBatch
batch_of key = record {
  predicted_shard = some 1;
  items = buffered key ∷ [];
  size_estimate = 0;
  pk_set = [];
  ehk_set = [];
}

abbrev on_two : ℕ → PerRecordOutcome
on_two key = record {
  batch = batch_of key;
  success = true;
  shard_id = some (shard_prefix ++ 50 ∷ []);
  sequence_number = some (49 ∷ []);
  error_code = none;
  error_message = none;
}

abbrev failed : PerRecordOutcome
failed = record {
  batch = batch_of 3;
  success = false;
  shard_id = none;
  sequence_number = none;
  error_code = some (88 ∷ []);
  error_message = none;
}

abbrev test_report : SendOutcome
test_report = record {
  stream_name = [];
  started_at = 5;
  ended_at = 9;
  request_error = none;
  per_record = on_two 50 ∷ on_two 100 ∷ failed ∷ [];
  batch_items = batch_of 50 ∷ batch_of 100 ∷ batch_of 3 ∷ [];
}

-- Which callback an action calls, by a number.
abbrev callback : Action → ℕ
callback (finish x r) = 0
callback (retry x) = 1
callback (invalidate seen_at shard) = 2

parse-two : parse_actual_shard_id (some (shard_prefix ++ 50 ∷ [])) ≡ some 2
unfolding parse_actual_shard_id digits_value
parse-two = refl

handle-callbacks :
    flat_map (λ a. callback a ∷ []) (handle cfg clock hashrange 0 test_report).0
    ≡ 0 ∷ 2 ∷ 1 ∷ 2 ∷ 0 ∷ []
unfolding handle handle_by handle_each handle_per_record handle_success check_all check_range
    finish_success retry_not_expired fail_items fail_or_retry parse_actual_shard_id digits_value
handle-callbacks = refl

test_report-IsAligned : IsAligned (batch_of 50 ∷ batch_of 100 ∷ batch_of 3 ∷ []) test_report
test_report-IsAligned = (refl, inr (refl, refl))

handle-settles_example :
    flat_map settles (handle cfg clock hashrange 0 test_report).0
    ≡ origins (batch_of 50 ∷ batch_of 100 ∷ batch_of 3 ∷ [])
handle-settles_example =
    handle-settles cfg clock hashrange 0 (batch_of 50 ∷ batch_of 100 ∷ batch_of 3 ∷ []) test_report
      test_report-IsAligned

handle-IsSound_example : All (IsSound cfg) (handle cfg clock hashrange 0 test_report).0
handle-IsSound_example = handle-IsSound cfg clock hashrange 0 test_report
