-- ===== src/Aggregation/Fields.antt =====
-- The protobuf fields of aiokpl/aggregation.py: tags, length-delimited and uint64 fields, and
-- `_skip_unknown`.
pub mod RoundTrip
pub mod Shrink
use aiokpl.Common.{ℕ, ◌+◌, ◌*◌, Bool, ◌++◌, ltb, ◌==◌, if◌then◌else◌, length, take, drop}
use aiokpl.Common.Result.{Result, ok, err, ◌>>=◌, ◌>>◌, raise_if}
use aiokpl.Aggregation.Types.{Bytes, CodecError, truncated_field, unsupported_wire_type}
use aiokpl.Aggregation.Varint.{encode_varint, decode_varint}

abbrev pub wire_varint : ℕ
wire_varint = 0

abbrev pub wire_length_delimited : ℕ
wire_length_delimited = 2

-- `(field_number << 3) | wire_type`: a wire type has three bits.
unfoldable pub encode_tag : ℕ → ℕ → Bytes → Bytes
encode_tag field_number wire_type out = encode_varint (field_number * 8 + wire_type) out

unfoldable pub encode_length_delimited : ℕ → Bytes → Bytes → Bytes
encode_length_delimited field_number payload out =
    encode_varint (length payload) (encode_tag field_number wire_length_delimited out) ++ payload

unfoldable pub encode_uint64_field : ℕ → ℕ → Bytes → Bytes
encode_uint64_field field_number value out =
    encode_varint value (encode_tag field_number wire_varint out)

-- A length and as many bytes: `end = pos + length; if end > n: raise`, then `buf[pos:end]` and
-- `pos = end`. The error is the caller's.
unfoldable pub read_delimited : CodecError → Bytes → Result CodecError (Bytes × Bytes)
read_delimited truncated buf = do
  (len, pos) ← decode_varint buf
  raise_if (ltb (length pos) len) truncated
  ok (take len pos, drop len pos)

unfoldable pub skip_unknown : Bytes → ℕ → Result CodecError Bytes
skip_unknown buf wire_type =
    if wire_type == wire_varint
    then (do (value, pos) ← decode_varint buf; ok pos)
    else if wire_type == wire_length_delimited
    then (do (skipped, pos) ← read_delimited truncated_field buf; ok pos)
    else err (unsupported_wire_type wire_type)
