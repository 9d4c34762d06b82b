-- ===== src/Sender/Tests.antt =====
-- A run of the sender on a batch of one record, and its theorem there.
use aiokpl.Common.{◌≡◌, refl, true, none, some, List, [], ◌∷◌}
use aiokpl.Common.Result.{ok, err}
use aiokpl.Aggregation.Codec.{encode_aggregated}
use aiokpl.Batch.{
  BufferedRecord, AggregatedBatch, to_blob, routing_partition_key, routing_explicit_hash_key,
}
use aiokpl.Collector.{PutRecordsBatch}
use aiokpl.Sender.{
  SendOutcome, Entry, Slot, responded, empty_batch, build_per_record, build_all, entries, report,
  send,
}
use aiokpl.Sender.Aligned.{IsAligned, send-IsAligned}

abbrev buffered : BufferedRecord
buffered = record {
  identity = 1;
  user_record = record {
    partition_key = 97 ∷ [];
    content = 1 ∷ 2 ∷ [];
    explicit_hash_key = none;
    tags = [];
  };
  deadline = 100;
  hash_key = 7;
  arrival_time = 0;
  attempts = [];
}

abbrev aggregated : AggregatedBatch
aggregated = record {
  predicted_shard = some 4;
  items = buffered ∷ [];
  size_estimate = 14;
  pk_set = (97 ∷ []) ∷ [];
  ehk_set = [];
}

abbrev batch : PutRecordsBatch
batch = record { items = aggregated ∷ []; size_bytes = 14; shard_bytes = (some 4, 14) ∷ [] }

-- A client that answers each entry with a sequence number.
abbrev put_all : List Entry → List Slot
put_all [] = []
put_all (e ∷ es) =
    record {
      sequence_number = some (49 ∷ []);
      shard_id = some e.partition_key;
      error_code = none;
      error_message = none;
    }
    ∷ put_all es

abbrev test_report : SendOutcome
test_report = record {
  stream_name = 115 ∷ [];
  started_at = 5;
  ended_at = 9;
  request_error = none;
  per_record =
      record {
        batch = aggregated;
        success = true;
        shard_id = some (97 ∷ []);
        sequence_number = some (49 ∷ []);
        error_code = none;
        error_message = none;
      }
      ∷ [];
  batch_items = aggregated ∷ [];
}

send-put_all : send (λ b. b) (115 ∷ []) (λ es. responded (put_all es)) 5 9 batch ≡ ok test_report
unfolding send entries report build_all build_per_record to_blob encode_aggregated
    routing_partition_key routing_explicit_hash_key
send-put_all = refl

send-empty :
    send (λ b. b) (115 ∷ []) (λ es. responded (put_all es)) 5 9 (record batch { items = [] })
    ≡ err empty_batch
unfolding send
send-empty = refl

send-IsAligned_example : IsAligned (aggregated ∷ []) test_report
send-IsAligned_example =
    send-IsAligned (λ b. b) (115 ∷ []) (λ es. responded (put_all es)) 5 9 batch test_report
      send-put_all
