-- ===== src/Aggregation/RecordMessage.antt =====
-- The `Record` message of aiokpl/aggregation.py: `_encode_record_msg` and `_decode_record_msg`.
pub mod RoundTrip
pub mod Shrink
use aiokpl.Common.{
  ℕ, ◌/◌, ◌%◌, ◌&&◌, Option, none, some, List, [], ◌∷◌, ◌++◌, ◌==◌, if◌then◌else◌, length,
  get_elem?,
}
use aiokpl.Common.Loop.{loop}
use aiokpl.Common.Result.{Result, ok, err, ◌>>=◌}
use aiokpl.Aggregation.Types.{
  Bytes, Str, CodecError, truncated_record_data, truncated_record_tag, partition_key_index_required,
  data_required, partition_key_index_out_of_range, explicit_hash_key_index_out_of_range,
  out_of_fuel, Tag, DecodedRecord,
}
use aiokpl.Aggregation.Varint.{decode_varint}
use aiokpl.Aggregation.Fields.{
  wire_varint, wire_length_delimited, encode_length_delimited, encode_uint64_field, read_delimited,
  skip_unknown,
}
use aiokpl.Aggregation.TagMessage.{encode_tag_msg, decode_tag_msg}

encode_ehk_index : Option ℕ → Bytes → Bytes
encode_ehk_index none out = out
encode_ehk_index (some index) out = encode_uint64_field 2 index out

-- `for t in tags`
encode_tags : List Tag → Bytes → Bytes
encode_tags [] out = out
encode_tags (t ∷ tags) out = encode_tags tags (encode_length_delimited 4 (encode_tag_msg t) out)

unfoldable pub encode_record_msg : ℕ → Option ℕ → Bytes → List Tag → Bytes
unfolding encode_ehk_index encode_tags
encode_record_msg pk_index ehk_index content tags = encode_tags tags (
    encode_length_delimited 3 content
      (encode_ehk_index ehk_index (encode_uint64_field 1 pk_index [])))

-- The variables of the loop.
pub record RecordState : Type 0 where
  pub pk_index : Option ℕ
  pub ehk_index : Option ℕ
  pub content : Option Bytes
  pub tags : List Tag

abbrev no_fields : RecordState
no_fields = record { pk_index = none; ehk_index = none; content = none; tags = [] }

-- The branches of a round, behind the tag.
record_field : ℕ → ℕ → RecordState → Bytes → Result CodecError (RecordState × Bytes)
record_field field_number wire_type s pos =
    if field_number == 1 && wire_type == wire_varint
    then (do (index, rest) ← decode_varint pos; ok (record s { pk_index = some index }, rest))
    else if field_number == 2 && wire_type == wire_varint
    then (do (index, rest) ← decode_varint pos; ok (record s { ehk_index = some index }, rest))
    else if field_number == 3 && wire_type == wire_length_delimited
    then (do
      (body, rest) ← read_delimited truncated_record_data pos
      ok (record s { content = some body }, rest))
    else if field_number == 4 && wire_type == wire_length_delimited
    then (do
      (body, rest) ← read_delimited truncated_record_tag pos
      t ← decode_tag_msg body
      ok (record s { tags = s.tags ++ t ∷ [] }, rest))
    else (do rest ← skip_unknown pos wire_type; ok (s, rest))

record_round : RecordState → Bytes → Result CodecError (RecordState × Bytes)
unfolding record_field
record_round s buf = do (tag, pos) ← decode_varint buf; record_field (tag / 8) (tag % 8) s pos

-- `if o is None: raise e`
required {ℓ} : {A : Type ℓ} → Option A → CodecError → Result CodecError A
required none e = err e
required (some a) e = ok a

-- An index at or past the end of the table raises.
ehk_entry : List Str → Option ℕ → Result CodecError (Option Str)
ehk_entry table none = ok none
ehk_entry table (some index) = elim (get_elem? table index) [
  | none ↦ err (explicit_hash_key_index_out_of_range index)
  | some key ↦ ok (some key)
]

record_result : List Str → List Str → RecordState → Result CodecError DecodedRecord
unfolding required ehk_entry
record_result pk_table ehk_table s = do
  pk_index ← required s.pk_index partition_key_index_required
  content ← required s.content data_required
  pk ← required (get_elem? pk_table pk_index) (partition_key_index_out_of_range pk_index)
  ehk ← ehk_entry ehk_table s.ehk_index
  ok (record { partition_key = pk; explicit_hash_key = ehk; content = content; tags = s.tags })

unfoldable pub decode_record_msg : Bytes → List Str → List Str → Result CodecError DecodedRecord
unfolding loop record_round record_result
decode_record_msg buf pk_table ehk_table = do
  s ← loop record_round out_of_fuel (length buf) no_fields buf
  record_result pk_table ehk_table s
