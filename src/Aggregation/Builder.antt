-- ===== src/Aggregation/Builder.antt =====
-- `_AggregatedBuilder` of aiokpl/aggregation.py: the tables of distinct keys, and the records.
pub mod Index
pub mod RoundTrip
use aiokpl.Common.{ℕ, Option, none, some, List, [], ◌∷◌, ◌++◌, length}
use aiokpl.Common.Eq.{Eq, list_Eq, nat_Eq}
use aiokpl.Common.Dict
use aiokpl.Common.Dict.{Dict}
use aiokpl.Aggregation.Types.{Bytes, Str, UserRecord}
use aiokpl.Aggregation.Utf8.{utf8_encode}
use aiokpl.Aggregation.Fields.{encode_length_delimited}
use aiokpl.Aggregation.RecordMessage.{encode_record_msg}

pub record AggregatedBuilder : Type 0 where
  pub partition_keys : List Str
  pub explicit_hash_keys : List Str
  pub pk_index : Dict Str ℕ
  pub ehk_index : Dict Str ℕ
  pub records : List Bytes

abbrev pub empty_builder : AggregatedBuilder
empty_builder = record {
  partition_keys = [];
  explicit_hash_keys = [];
  pk_index = [];
  ehk_index = [];
  records = [];
}

-- The index of a key, which joins the table and its index dict if it is new.
unfoldable pub intern : Str → List Str → Dict Str ℕ → ℕ × List Str × Dict Str ℕ
intern key table index = elim (Dict.get key index) [
  | some i ↦ (i, table, index)
  | none ↦ (length table, table ++ key ∷ [], Dict.put key (length table) index)
]

unfoldable pub intern_option : Option Str → List Str → Dict Str ℕ → Option ℕ × List Str × Dict Str ℕ
unfolding intern
intern_option none table index = (none, table, index)
intern_option (some key) table index =
    let (j, table', index') = intern key table index in (some j, table', index')

unfoldable pub add : AggregatedBuilder → UserRecord → AggregatedBuilder
add b r =
    let (i, pks, pk_index) = intern r.partition_key b.partition_keys b.pk_index in
    let (j, ehks, ehk_index) = intern_option r.explicit_hash_key b.explicit_hash_keys b.ehk_index in
    record {
      partition_keys = pks;
      explicit_hash_keys = ehks;
      pk_index = pk_index;
      ehk_index = ehk_index;
      records = b.records ++ encode_record_msg i j r.content r.tags ∷ [];
    }

-- `for r in records: builder.add(r)`
unfoldable pub add_all : AggregatedBuilder → List UserRecord → AggregatedBuilder
add_all b [] = b
add_all b (r ∷ rs) = add_all (add b r) rs

-- The three loops of `serialize`.
unfoldable pub put_texts : ℕ → List Str → Bytes → Bytes
put_texts field_number [] out = out
put_texts field_number (k ∷ ks) out =
    put_texts field_number ks (encode_length_delimited field_number (utf8_encode k) out)

unfoldable pub put_records : List Bytes → Bytes → Bytes
put_records [] out = out
put_records (blob ∷ blobs) out = put_records blobs (encode_length_delimited 3 blob out)

unfoldable pub serialize : AggregatedBuilder → Bytes
unfolding put_texts put_records
serialize b =
    put_records b.records (put_texts 2 b.explicit_hash_keys (put_texts 1 b.partition_keys []))
