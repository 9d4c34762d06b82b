-- ===== src/Aggregation/Codec.antt =====
-- `encode_aggregated`, `is_aggregated` and `decode_aggregated` of aiokpl/aggregation.py, over the
-- MD5 digest of `hashlib`, which is a parameter.
pub mod Items
pub mod RoundTrip
pub mod Total
pub mod Gate
use aiokpl.Common.{
  ℕ, ◌+◌, ◌-◌, ◌/◌, ◌%◌, Bool, true, false, not, ◌&&◌, List, [], ◌∷◌, ◌++◌, leb, ltb, ◌==◌,
  if◌then◌else◌, length, take, drop,
}
use aiokpl.Common.Eq.{nat_Eq, list_beq}
use aiokpl.Common.Loop.{loop}
use aiokpl.Common.Result.{Result, ok, err, ◌>>=◌, ◌>>◌, raise_if}
use aiokpl.Aggregation.Types.{
  Bytes, Str, CodecError, no_records, payload_too_short, bad_magic, checksum_mismatch,
  truncated_partition_key, truncated_explicit_hash_key, truncated_record, out_of_fuel, UserRecord,
  DecodedRecord,
}
use aiokpl.Aggregation.Varint.{decode_varint}
use aiokpl.Aggregation.Utf8.{utf8_decode}
use aiokpl.Aggregation.Fields.{wire_length_delimited, read_delimited, skip_unknown}
use aiokpl.Aggregation.RecordMessage.{decode_record_msg}
use aiokpl.Aggregation.Builder.{empty_builder, add_all, serialize}

abbrev pub magic : Bytes
magic = 0xF3 ∷ 0x89 ∷ 0x9A ∷ 0xC2 ∷ []

abbrev pub md5_len : ℕ
md5_len = 16

-- `payload.startswith(prefix)`
abbrev pub starts_with : Bytes → Bytes → Bool
starts_with [] payload = true
starts_with (x ∷ xs) [] = false
starts_with (x ∷ xs) (y ∷ ys) = x == y && starts_with xs ys

unfoldable pub is_aggregated : Bytes → Bool
is_aggregated payload = leb (length magic + md5_len) (length payload) && starts_with magic payload

-- The lists of the loop.
pub record AggregatedState : Type 0 where
  pub pk_table : List Str
  pub ehk_table : List Str
  pub record_blobs : List Bytes

abbrev pub no_entries : AggregatedState
no_entries = record { pk_table = []; ehk_table = []; record_blobs = [] }

-- The branches of a round, behind the tag.
aggregated_field : ℕ → ℕ → AggregatedState → Bytes → Result CodecError (AggregatedState × Bytes)
aggregated_field field_number wire_type s pos =
    if field_number == 1 && wire_type == wire_length_delimited
    then (do
      (body, rest) ← read_delimited truncated_partition_key pos
      key ← utf8_decode body
      ok (record s { pk_table = s.pk_table ++ key ∷ [] }, rest))
    else if field_number == 2 && wire_type == wire_length_delimited
    then (do
      (body, rest) ← read_delimited truncated_explicit_hash_key pos
      key ← utf8_decode body
      ok (record s { ehk_table = s.ehk_table ++ key ∷ [] }, rest))
    else if field_number == 3 && wire_type == wire_length_delimited
    then (do
      (body, rest) ← read_delimited truncated_record pos
      ok (record s { record_blobs = s.record_blobs ++ body ∷ [] }, rest))
    else (do rest ← skip_unknown pos wire_type; ok (s, rest))

pub aggregated_round : AggregatedState → Bytes → Result CodecError (AggregatedState × Bytes)
unfolding aggregated_field
aggregated_round s buf = do
  (tag, pos) ← decode_varint buf
  aggregated_field (tag / 8) (tag % 8) s pos

-- The list comprehension of the last line: the first record that fails raises.
decode_records : List Str → List Str → List Bytes → Result CodecError (List DecodedRecord)
decode_records pks ehks [] = ok []
decode_records pks ehks (blob ∷ blobs) = do
  r ← decode_record_msg blob pks ehks
  rs ← decode_records pks ehks blobs
  ok (r ∷ rs)

-- The protobuf message between the magic and the digest.
decode_proto : Bytes → Result CodecError (List DecodedRecord)
unfolding loop aggregated_round decode_records
decode_proto proto = do
  s ← loop aggregated_round out_of_fuel (length proto) no_entries proto
  decode_records s.pk_table s.ehk_table s.record_blobs

module _ (md5 : Bytes → Bytes) where
  unfoldable pub encode_aggregated : List UserRecord → Result CodecError Bytes
  encode_aggregated [] = err no_records
  encode_aggregated (r ∷ []) = ok r.content
  encode_aggregated (r ∷ s ∷ rs) =
      let payload = serialize (add_all empty_builder (r ∷ s ∷ rs)) in
      ok (magic ++ (payload ++ md5 payload))

  unfoldable pub decode_aggregated : Bytes → Result CodecError (List DecodedRecord)
  unfolding decode_proto
  decode_aggregated payload = do
    raise_if (ltb (length payload) (length magic + md5_len)) payload_too_short
    raise_if (not (starts_with magic payload)) bad_magic
    let proto = take (length payload - md5_len - length magic) (drop (length magic) payload)
    let expected = drop (length payload - md5_len) payload
    raise_if (not (list_beq (md5 proto) expected)) checksum_mismatch
    decode_proto proto
