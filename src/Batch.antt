-- ===== src/Batch.antt =====
-- `_BufferedRecord` and `AggregatedBatch` of aiokpl/aggregator.py: the records of one shard that
-- become one record of the service. A set of keys is the list of its members.
pub mod Undo
pub mod Size
pub mod Routing
mod Tests
use aiokpl.Common.{
  ℕ, zero, suc, ◌+◌, Bool, true, false, ◌||◌, Option, none, some, List, [], ◌∷◌, ◌++◌, map, ltb,
  if◌then◌else◌, length, get_elem?,
}
use aiokpl.Common.Eq.{Eq, nat_Eq, list_Eq}
use aiokpl.Common.Result.{Result}
use aiokpl.Time.{Deadline, at, never, earlier}
use aiokpl.Attempt.{Attempt}
use aiokpl.Hashing.{decimal}
use aiokpl.Aggregation.Types.{Bytes, Str, CodecError, UserRecord}
use aiokpl.Aggregation.Utf8.{utf8_encode}
use aiokpl.Aggregation.Codec.{encode_aggregated}
use aiokpl.Reducer.Interface.{BatchOps}

-- A record that waits: an object, which its attempts and its deadline change. `identity` is the
-- `id` of that object.
pub record BufferedRecord : Type 0 where
  pub identity : ℕ
  pub user_record : UserRecord
  pub deadline : ℕ
  pub hash_key : ℕ
  pub arrival_time : ℕ
  pub attempts : List Attempt

abbrev pub record_framing : ℕ
record_framing = 3

abbrev pub field_framing : ℕ
field_framing = 3

abbrev pub index_reference : ℕ
index_reference = 2

pub record AggregatedBatch : Type 0 where
  pub predicted_shard : Option ℕ
  pub items : List BufferedRecord
  pub size_estimate : ℕ
  pub pk_set : List Str
  pub ehk_set : List Str

abbrev pub new_batch : Option ℕ → AggregatedBatch
new_batch shard = record {
  predicted_shard = shard;
  items = [];
  size_estimate = 0;
  pk_set = [];
  ehk_set = [];
}

-- `key in keys`
abbrev pub has_key : Str → List Str → Bool
has_key key [] = false
has_key key (k ∷ keys) = list_Eq.equal k key || has_key key keys

-- What a key adds to the estimate, and the set with it.
abbrev pub charge_key : Str → List Str → ℕ × List Str
charge_key key keys =
    if has_key key keys
    then (0, keys)
    else (length (utf8_encode key) + field_framing, keys ++ key ∷ [])

abbrev pub charge_option : Option Str → List Str → ℕ × List Str
charge_option none keys = (0, keys)
charge_option (some key) keys = charge_key key keys

-- `AggregatedBatch.add`
unfoldable pub add : AggregatedBatch → BufferedRecord → AggregatedBatch
add b item =
    let ur = item.user_record in
    let delta = record_framing + length ur.content + field_framing + index_reference in
    let (pk_cost, pks) = charge_key ur.partition_key b.pk_set in
    let (ehk_cost, ehks) = charge_option ur.explicit_hash_key b.ehk_set in
    record b {
      items = b.items ++ item ∷ [];
      size_estimate = b.size_estimate + (delta + pk_cost + ehk_cost);
      pk_set = pks;
      ehk_set = ehks;
    }

-- `items.pop()`: what stays and the last item, or `none` for the `IndexError` of an empty list.
unfoldable pub split_last {ℓ} : {A : Type ℓ} → List A → Option (List A × A)
split_last [] = none
split_last (x ∷ xs) = elim (split_last xs) [
  | some (kept, last) ↦ some (x ∷ kept, last)
  | none ↦ some ([], x)
]

-- `for k in kept: self.add(k)`
unfoldable pub add_kept : AggregatedBatch → List BufferedRecord → AggregatedBatch
unfolding add
add_kept b [] = b
add_kept b (k ∷ kept) = add_kept (add b k) kept

-- `AggregatedBatch.remove_last`
unfoldable pub remove_last : AggregatedBatch → Option (BufferedRecord × AggregatedBatch)
unfolding split_last add_kept
remove_last b = elim (split_last b.items) [
  | some (kept, item) ↦
      some (
        item,
        add_kept (record b { pk_set = []; ehk_set = []; size_estimate = 0; items = [] }) kept,
      )
  | none ↦ none
]

abbrev pub earliest : List BufferedRecord → Deadline
earliest [] = never
earliest (x ∷ xs) = earlier (at x.deadline) (earliest xs)

-- The batch as the reducer sees it; `batch_factory` makes a new one for the shard.
abbrev pub batch_ops : Option ℕ → BatchOps BufferedRecord AggregatedBatch
batch_ops shard = record {
  empty = new_batch shard;
  add = add;
  remove_last = remove_last;
  items = λ b. b.items;
  count = λ b. length b.items;
  size = λ b. b.size_estimate;
  deadline = λ b. earliest b.items;
  item_deadline = λ x. at x.deadline;
}

-- `to_blob`, over the MD5 digest.
unfoldable pub to_blob : (Bytes → Bytes) → AggregatedBatch → Result CodecError Bytes
to_blob md5 b = encode_aggregated md5 (map (λ x. x.user_record) b.items)

-- `routing_partition_key`: `none` for the `IndexError` of an empty batch.
unfoldable pub routing_partition_key : AggregatedBatch → Option Str
routing_partition_key b =
    if ltb 1 (length b.items)
    then some (97 ∷ [])
    else elim (get_elem? b.items 0) [ some x ↦ some x.user_record.partition_key | none ↦ none ]

-- `routing_explicit_hash_key`: the outer `none` is the `IndexError` of an empty batch.
unfoldable pub routing_explicit_hash_key : AggregatedBatch → Option (Option Str)
routing_explicit_hash_key b = elim (get_elem? b.items 0) [
  | some x ↦ some (
      if ltb 1 (length b.items) then some (decimal x.hash_key) else x.user_record.explicit_hash_key)
  | none ↦ none
]
