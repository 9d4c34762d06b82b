-- ===== src/Sender.antt =====
-- aiokpl/sender.py: the request that `Sender.send` makes of a batch, and its report. The client is
-- a parameter, a function from the entries of the request to its reply. The metric of the request's
-- time is left out, as with `metrics=None`.
pub mod Aligned
mod Tests
use aiokpl.Common.{
  ℕ, Bool, true, false, not, Option, none, some, List, [], ◌∷◌, ◌++◌, ◌==◌, if◌then◌else◌, length,
}
use aiokpl.Common.Result.{Result, ok, err, ◌>>=◌, ◌>>◌, raise_if}
use aiokpl.Aggregation.Types.{Bytes, Str, CodecError}
use aiokpl.Hashing.{decimal}
use aiokpl.Texts.{internal, record_count_mismatch, mismatch_returned, mismatch_records}
use aiokpl.Batch.{AggregatedBatch, to_blob, routing_partition_key, routing_explicit_hash_key}
use aiokpl.Collector.{PutRecordsBatch}

pub record PerRecordOutcome : Type 0 where
  pub batch : AggregatedBatch
  pub success : Bool
  pub shard_id : Option Str
  pub sequence_number : Option Str
  pub error_code : Option Str
  pub error_message : Option Str

pub record SendOutcome : Type 0 where
  pub stream_name : Str
  pub started_at : ℕ
  pub ended_at : ℕ
  pub request_error : Option (Str × Str)
  pub per_record : List PerRecordOutcome
  pub batch_items : List AggregatedBatch

-- An entry of `Records` in the request.
pub record Entry : Type 0 where
  pub payload : Bytes
  pub partition_key : Str
  pub explicit_hash_key : Option Str

-- An entry of `Records` in the response.
pub record Slot : Type 0 where
  pub sequence_number : Option Str
  pub shard_id : Option Str
  pub error_code : Option Str
  pub error_message : Option Str

-- An exception: `Code` and `Message` of its `response["Error"]`, where they are texts, and its text.
pub record ClientException : Type 0 where
  pub code : Option Str
  pub message : Option Str
  pub text : Str

pub data Reply : Type 0 where
  raised : ClientException → Reply
  responded : List Slot → Reply

-- What `send` raises: `ValueError` of an empty batch or of the codec, `IndexError` of an aggregated
-- batch without records.
pub data SendError : Type 0 where
  empty_batch no_records_in_batch : SendError
  codec_error : CodecError → SendError

-- `_classify_request_exception`
unfoldable pub classify_request_exception : ClientException → Str × Str
classify_request_exception exc = elim exc.code [
  | some code ↦ elim exc.message [ some message ↦ (code, message) | none ↦ (internal, exc.text) ]
  | none ↦ (internal, exc.text)
]

-- `if seq`
abbrev pub is_given : Option Str → Bool
is_given none = false
is_given (some []) = false
is_given (some (c ∷ s)) = true

-- `_build_per_record`
unfoldable pub build_per_record : AggregatedBatch → Slot → PerRecordOutcome
build_per_record ar slot =
    if is_given slot.sequence_number
    then record {
      batch = ar;
      success = true;
      shard_id = slot.shard_id;
      sequence_number = slot.sequence_number;
      error_code = none;
      error_message = none;
    }
    else record {
      batch = ar;
      success = false;
      shard_id = none;
      sequence_number = none;
      error_code = slot.error_code;
      error_message = slot.error_message;
    }

-- `zip(batch.items, response_records, strict=True)` of two lists of one length.
unfoldable pub build_all : List AggregatedBatch → List Slot → List PerRecordOutcome
unfolding build_per_record
build_all (ar ∷ ars) (slot ∷ slots) = build_per_record ar slot ∷ build_all ars slots
build_all ars slots = []

abbrev pub or_codec : {A : Type 0} → Result CodecError A → Result SendError A
or_codec (ok a) = ok a
or_codec (err e) = err (codec_error e)

abbrev pub or_index : {A : Type 0} → Option A → Result SendError A
or_index (some a) = ok a
or_index none = err no_records_in_batch

-- The report on a reply.
unfoldable pub report : Str → ℕ → ℕ → List AggregatedBatch → Reply → SendOutcome
unfolding build_all classify_request_exception
report stream_name started_at ended_at items (raised exc) = record {
  stream_name = stream_name;
  started_at = started_at;
  ended_at = ended_at;
  request_error = some (classify_request_exception exc);
  per_record = [];
  batch_items = items;
}
report stream_name started_at ended_at items (responded slots) =
    if not (length slots == length items)
    then record {
      stream_name = stream_name;
      started_at = started_at;
      ended_at = ended_at;
      request_error = some (
        record_count_mismatch,
        mismatch_returned
            ++ (decimal (length slots) ++ (mismatch_records ++ decimal (length items))),
      );
      per_record = [];
      batch_items = items;
    }
    else record {
      stream_name = stream_name;
      started_at = started_at;
      ended_at = ended_at;
      request_error = none;
      per_record = build_all items slots;
      batch_items = items;
    }

module _ (md5 : Bytes → Bytes) where
  -- The loop that fills `records`.
  unfoldable pub entries : List AggregatedBatch → Result SendError (List Entry)
  entries [] = ok []
  entries (ar ∷ ars) = do
    payload ← or_codec (to_blob md5 ar)
    partition_key ← or_index (routing_partition_key ar)
    explicit_hash_key ← or_index (routing_explicit_hash_key ar)
    rest ← entries ars
    ok (
        record {
          payload = payload;
          partition_key = partition_key;
          explicit_hash_key = explicit_hash_key;
        }
        ∷ rest)

  -- `Sender.send`, with the clock's times before and after the call of the client.
  unfoldable pub send :
      Str → (List Entry → Reply) → ℕ → ℕ → PutRecordsBatch → Result SendError SendOutcome
  unfolding entries report
  send stream_name put_records started_at ended_at batch = do
    raise_if (length batch.items == 0) empty_batch
    records ← entries batch.items
    ok (report stream_name started_at ended_at batch.items (put_records records))
