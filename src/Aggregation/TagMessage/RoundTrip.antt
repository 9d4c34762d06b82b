-- ===== src/Aggregation/TagMessage/RoundTrip.antt =====
-- Decoding an encoded tag gives the tag back.
use mathlib.Core.List.{foldl, append-nil}
use aiokpl.Common.{
  ◌^◌, ◌<◌, ◌≡◌, ◌∙◌, refl, sym, ap, Option, none, some, List, [], ◌∷◌, ◌++◌, arith, length,
  flat_map, flat_map-All, All,
}
use aiokpl.Common.Loop.{loop-flat_map}
use aiokpl.Common.Result.{ok}
use aiokpl.Aggregation.Types.{Bytes, Str, truncated_tag_key, truncated_tag_value, out_of_fuel, Tag}
use aiokpl.Aggregation.Utf8.{utf8_encode, IsText}
use aiokpl.Aggregation.Utf8.RoundTrip.{utf8_decode-utf8_encode}
use aiokpl.Aggregation.Fields.{encode_length_delimited}
use aiokpl.Aggregation.Fields.RoundTrip.{
  encode_length_delimited-append, encode_length_delimited_bounds, decode_tag_delimited,
  read_delimited-encode,
}
use aiokpl.Aggregation.TagMessage.{
  encode_tag_value, encode_tag_msg, TagState, tag_round, tag_result, decode_tag_msg,
}

-- A text that encodes to fewer than 2 ^ 70 bytes.
abbrev pub Encodable : Str → Type 0
Encodable s = IsText s × (length (utf8_encode s) < 2 ^ 70)

data Item : Type 0 where
  key_item value_item : Str → Item

abbrev encode_item : Item → Bytes
encode_item (key_item k) = encode_length_delimited 1 (utf8_encode k) []
encode_item (value_item v) = encode_length_delimited 2 (utf8_encode v) []

abbrev update : TagState → Item → TagState
update s (key_item k) = record s { key = some k }
update s (value_item v) = record s { value = some v }

abbrev IsItem : Item → Type 0
IsItem (key_item k) = Encodable k
IsItem (value_item v) = Encodable v

tag_round-encode_item :
    (s : TagState) (x : Item) (rest : Bytes)
    → IsItem x
    → tag_round s (encode_item x ++ rest) ≡ ok (update s x, rest)
unfolding tag_round
tag_round-encode_item s (key_item k) rest h =
    rw (decode_tag_delimited 1 (utf8_encode k) rest (omega arith)) (
      rw (read_delimited-encode truncated_tag_key (utf8_encode k) rest h.1)
        (rw (utf8_decode-utf8_encode k h.0)))
tag_round-encode_item s (value_item v) rest h =
    rw (decode_tag_delimited 2 (utf8_encode v) rest (omega arith)) (
      rw (read_delimited-encode truncated_tag_value (utf8_encode v) rest h.1)
        (rw (utf8_decode-utf8_encode v h.0)))

encode_item_pos : (x : Item) → 0 < length (encode_item x)
encode_item_pos (key_item k) = omega (arith, encode_length_delimited_bounds 1 (utf8_encode k))
encode_item_pos (value_item v) = omega (arith, encode_length_delimited_bounds 2 (utf8_encode v))

value_items : Option Str → List Item
value_items none = []
value_items (some v) = value_item v ∷ []

encode_tag_value-items :
    (o : Option Str) (out : Bytes)
    → encode_tag_value o out ≡ out ++ flat_map encode_item (value_items o)
unfolding encode_tag_value value_items
encode_tag_value-items none out = sym (append-nil out)
encode_tag_value-items (some v) out =
    encode_length_delimited-append 2 (utf8_encode v) out
    ∙ ap (◌++◌ out) (sym (append-nil (encode_length_delimited 2 (utf8_encode v) [])))

abbrev EncodableOption : Option Str → Type 0
EncodableOption none = Unit
EncodableOption (some v) = Encodable v

pub record EncodableTag (t : Tag) : Type 0 where
  pub key : Encodable t.key
  pub value : EncodableOption t.value

value_items-IsItem : (o : Option Str) → EncodableOption o → All IsItem (value_items o)
unfolding value_items
value_items-IsItem none h = tt
value_items-IsItem (some v) h = (h, tt)

items : Str → Option Str → List Item
unfolding value_items
items k o = key_item k ∷ value_items o

result-items :
    (k : Str) (o : Option Str)
    → tag_result (foldl update (record { key = none; value = none }) (items k o))
      ≡ ok (record { key = k; value = o })
unfolding tag_result items
result-items k none = refl
result-items k (some v) = refl

encode_tag_msg-items : (t : Tag) → encode_tag_msg t ≡ flat_map encode_item (items t.key t.value)
unfolding encode_tag_msg items
encode_tag_msg-items t =
    encode_tag_value-items t.value (encode_length_delimited 1 (utf8_encode t.key) [])

-- Decoding the encoding of a tag gives the tag.
pub decode_tag_msg-encode_tag_msg :
    (t : Tag) → EncodableTag t → decode_tag_msg (encode_tag_msg t) ≡ ok t
unfolding decode_tag_msg items
decode_tag_msg-encode_tag_msg t h = rw (encode_tag_msg-items t) (
    rw
      (loop-flat_map tag_round out_of_fuel encode_item update IsItem tag_round-encode_item
        encode_item_pos (items t.key t.value) (length (flat_map encode_item (items t.key t.value)))
        (record { key = none; value = none }) (h.key, value_items-IsItem t.value h.value)
        (omega arith))
      (result-items t.key t.value))

abbrev pub TextOption : Option Str → Type 0
TextOption none = Unit
TextOption (some s) = IsText s

-- A tag of texts.
abbrev pub TextTag : Tag → Type 0
TextTag t = IsText t.key × TextOption t.value

abbrev IsShort : Item → Type 0
IsShort x = length (encode_item x) < 2 ^ 70

value-Encodable : (o : Option Str) → TextOption o → All IsShort (value_items o) → EncodableOption o
unfolding value_items
value-Encodable none h k = tt
value-Encodable (some v) h k =
    (h, omega (arith, encode_length_delimited_bounds 2 (utf8_encode v), k.0))

-- A tag of texts whose encoding is short has short parts.
pub EncodableTag-of_short :
    (t : Tag) → TextTag t → length (encode_tag_msg t) < 2 ^ 70 → EncodableTag t
unfolding items
EncodableTag-of_short t h k =
    let short : All IsShort (items t.key t.value) =
      flat_map-All encode_item (2 ^ 70) (items t.key t.value) (rw encode_tag_msg-items at k) in
    record {
      key = (h.0, omega (arith, encode_length_delimited_bounds 1 (utf8_encode t.key), short.0));
      value = value-Encodable t.value h.1 short.1;
    }
