-- ===== src/Aggregation/Tests.antt =====
-- Runs of the codec, and its theorems at concrete records.
use mathlib.Core.List.{Nodup}
use aiokpl.Common.{◌≡◌, ◌≢◌, refl, true, none, some, List, [], ◌∷◌, ◌++◌, map, arith, All, length}
use aiokpl.Common.Result.{ok, err}
use aiokpl.Aggregation.Types.{Bytes, Tag, UserRecord, out_of_fuel, varint_too_long}
use aiokpl.Aggregation.Varint.{encode_varint, decode_varint}
use aiokpl.Aggregation.Varint.RoundTrip.{decode_varint-encode_varint}
use aiokpl.Aggregation.RecordMessage.{encode_record_msg, decode_record_msg}
use aiokpl.Aggregation.RecordMessage.RoundTrip.{decode_record_msg-encode_record_msg}
use aiokpl.Aggregation.Builder.{empty_builder, add, add_all, intern_option, serialize}
use aiokpl.Common.Dict
use aiokpl.Aggregation.Utf8.{utf8_encode, utf8_decode}
use aiokpl.Aggregation.Fields.{
  encode_tag, encode_length_delimited, encode_uint64_field, read_delimited, skip_unknown,
}
use aiokpl.Aggregation.TagMessage.{encode_tag_msg, decode_tag_msg}
use aiokpl.Aggregation.Builder.RoundTrip.{TextRecord}
use aiokpl.Aggregation.Codec.{is_aggregated, encode_aggregated, decode_aggregated}
use aiokpl.Aggregation.Codec.Gate.{
  proto_of, digest_of, decode_aggregated_gate, is_aggregated-encode_aggregated, add_all-Nodup,
}
use aiokpl.Aggregation.Codec.RoundTrip.{decoded, decode_aggregated-encode_aggregated}
use aiokpl.Aggregation.Codec.Total.{decode_aggregated-ne-out_of_fuel}

-- A digest of 16 bytes that depends on the length of the message alone.
abbrev test_md5 : Bytes → Bytes
test_md5 b = length b ∷ 0 ∷ 1 ∷ 2 ∷ 3 ∷ 4 ∷ 5 ∷ 6 ∷ 7 ∷ 8 ∷ 9 ∷ 10 ∷ 11 ∷ 12 ∷ 13 ∷ 14 ∷ []

abbrev color : Tag
color = record { key = 0x63 ∷ []; value = some (0xE9 ∷ []) }

abbrev first : UserRecord
first = record {
  partition_key = 0x61 ∷ 0x20AC ∷ [];
  content = 1 ∷ 2 ∷ 3 ∷ [];
  explicit_hash_key = some (0x37 ∷ []);
  tags = color ∷ [];
}

abbrev second : UserRecord
second = record {
  partition_key = 0x61 ∷ 0x20AC ∷ [];
  content = 9 ∷ [];
  explicit_hash_key = none;
  tags = [];
}

abbrev sample : List UserRecord
sample = first ∷ second ∷ []

-- What Python writes for the two records, up to the digest.
abbrev payload : Bytes
payload =
    243 ∷ 137 ∷ 154 ∷ 194 ∷ 10 ∷ 4 ∷ 97 ∷ 226 ∷ 130 ∷ 172 ∷ 18 ∷ 1 ∷ 55 ∷ 26 ∷ 18 ∷ 8 ∷ 0 ∷ 16 ∷ 0
    ∷ 26 ∷ 3 ∷ 1 ∷ 2 ∷ 3 ∷ 34 ∷ 7 ∷ 10 ∷ 1 ∷ 99 ∷ 18 ∷ 2 ∷ 195 ∷ 169 ∷ 26 ∷ 5 ∷ 8 ∷ 0 ∷ 26 ∷ 1 ∷ 9
    ∷ 36 ∷ 0 ∷ 1 ∷ 2 ∷ 3 ∷ 4 ∷ 5 ∷ 6 ∷ 7 ∷ 8 ∷ 9 ∷ 10 ∷ 11 ∷ 12 ∷ 13 ∷ 14 ∷ []

encode-sample : encode_aggregated test_md5 sample ≡ ok payload
unfolding encode_aggregated serialize add_all add encode_record_msg encode_tag_msg
    encode_length_delimited encode_uint64_field encode_tag encode_varint utf8_encode intern_option
    Dict.get Dict.put
encode-sample = refl

single_is_raw : encode_aggregated test_md5 (first ∷ []) ≡ ok (1 ∷ 2 ∷ 3 ∷ [])
unfolding encode_aggregated
single_is_raw = refl

decode-sample : decode_aggregated test_md5 payload ≡ ok (map decoded sample)
unfolding decode_aggregated decode_record_msg decode_tag_msg read_delimited skip_unknown
    decode_varint utf8_decode
decode-sample = refl

overlong_varint :
    decode_varint (128 ∷ 128 ∷ 128 ∷ 128 ∷ 128 ∷ 128 ∷ 128 ∷ 128 ∷ 128 ∷ 128 ∷ 0 ∷ [])
    ≡ err varint_too_long
unfolding decode_varint
overlong_varint = refl

sample-TextRecord : All TextRecord sample
sample-TextRecord = omega arith

decode_aggregated-encode_aggregated_example :
    decode_aggregated test_md5 payload ≡ ok (map decoded sample)
decode_aggregated-encode_aggregated_example =
    decode_aggregated-encode_aggregated test_md5 (λ b. refl) first second [] payload
      sample-TextRecord encode-sample (omega arith)

decode_aggregated-ne-out_of_fuel_example : decode_aggregated test_md5 (1 ∷ 2 ∷ []) ≢ err out_of_fuel
decode_aggregated-ne-out_of_fuel_example = decode_aggregated-ne-out_of_fuel test_md5 (1 ∷ 2 ∷ [])

decode_aggregated_gate_example :
    (is_aggregated payload ≡ true) × (test_md5 (proto_of payload) ≡ digest_of payload)
decode_aggregated_gate_example =
    decode_aggregated_gate test_md5 payload (map decoded sample) decode-sample

is_aggregated-encode_aggregated_example : is_aggregated payload ≡ true
is_aggregated-encode_aggregated_example =
    is_aggregated-encode_aggregated test_md5 first second [] payload (λ b. refl) encode-sample

add_all-Nodup_example :
    Nodup (add_all empty_builder sample).partition_keys
    × Nodup (add_all empty_builder sample).explicit_hash_keys
add_all-Nodup_example = add_all-Nodup sample

decode_varint-encode_varint_example :
    decode_varint (encode_varint 300 [] ++ 7 ∷ []) ≡ ok (300, 7 ∷ [])
decode_varint-encode_varint_example = decode_varint-encode_varint 300 (7 ∷ []) (omega arith)

decode_record_msg-encode_record_msg_example :
    decode_record_msg
      (encode_record_msg 1 (some 0) (5 ∷ []) [])
      ((65 ∷ []) ∷ (66 ∷ []) ∷ [])
      ((55 ∷ []) ∷ [])
    ≡ ok (record {
      partition_key = 66 ∷ [];
      explicit_hash_key = some (55 ∷ []);
      content = 5 ∷ [];
      tags = [];
    })
unfolding encode_record_msg encode_length_delimited encode_varint encode_tag encode_uint64_field
decode_record_msg-encode_record_msg_example =
    decode_record_msg-encode_record_msg ((65 ∷ []) ∷ (66 ∷ []) ∷ []) ((55 ∷ []) ∷ []) 1 (some 0)
      (5 ∷ []) [] (66 ∷ []) (some (55 ∷ [])) refl refl (omega arith) (omega arith) tt (omega arith)
