-- ===== src/Aggregation/TagMessage.antt =====
-- The `Tag` message of aiokpl/aggregation.py: `_encode_tag_msg` and `_decode_tag_msg`.
pub mod RoundTrip
pub mod Shrink
use aiokpl.Common.{ℕ, ◌/◌, ◌%◌, ◌&&◌, Option, none, some, [], ◌==◌, if◌then◌else◌, length}
use aiokpl.Common.Loop.{loop}
use aiokpl.Common.Result.{Result, ok, err, ◌>>=◌}
use aiokpl.Aggregation.Types.{
  Bytes, Str, CodecError, truncated_tag_key, truncated_tag_value, tag_key_required, out_of_fuel,
  Tag,
}
use aiokpl.Aggregation.Varint.{decode_varint}
use aiokpl.Aggregation.Utf8.{utf8_encode, utf8_decode}
use aiokpl.Aggregation.Fields.{
  wire_length_delimited, encode_length_delimited, read_delimited, skip_unknown,
}

encode_tag_value : Option Str → Bytes → Bytes
encode_tag_value none out = out
encode_tag_value (some value) out = encode_length_delimited 2 (utf8_encode value) out

unfoldable pub encode_tag_msg : Tag → Bytes
unfolding encode_tag_value
encode_tag_msg t = encode_tag_value t.value (encode_length_delimited 1 (utf8_encode t.key) [])

-- The variables `key` and `value` of the loop.
pub record TagState : Type 0 where
  pub key : Option Str
  pub value : Option Str

-- The branches of a round, behind the tag.
tag_field : ℕ → ℕ → TagState → Bytes → Result CodecError (TagState × Bytes)
tag_field field_number wire_type s pos =
    if field_number == 1 && wire_type == wire_length_delimited
    then (do
      (body, rest) ← read_delimited truncated_tag_key pos
      key ← utf8_decode body
      ok (record s { key = some key }, rest))
    else if field_number == 2 && wire_type == wire_length_delimited
    then (do
      (body, rest) ← read_delimited truncated_tag_value pos
      value ← utf8_decode body
      ok (record s { value = some value }, rest))
    else (do rest ← skip_unknown pos wire_type; ok (s, rest))

tag_round : TagState → Bytes → Result CodecError (TagState × Bytes)
unfolding tag_field
tag_round s buf = do (tag, pos) ← decode_varint buf; tag_field (tag / 8) (tag % 8) s pos

tag_result : TagState → Result CodecError Tag
tag_result s = elim s.key [
  | none ↦ err tag_key_required
  | some key ↦ ok (record { key = key; value = s.value })
]

unfoldable pub decode_tag_msg : Bytes → Result CodecError Tag
unfolding loop tag_round tag_result
decode_tag_msg buf = do
  s ← loop tag_round out_of_fuel (length buf) (record { key = none; value = none }) buf
  tag_result s
