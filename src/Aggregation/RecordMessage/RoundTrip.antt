-- ===== src/Aggregation/RecordMessage/RoundTrip.antt =====
-- Decoding an encoded record, with tables that hold its keys at its indices, gives the record.
use mathlib.Core.List.{foldl, append-nil, append_assoc}
use aiokpl.Common.{
  ℕ, ◌^◌, ◌<◌, ◌≡◌, ◌∙◌, sym, ap, Option, none, some, List, [], ◌∷◌, ◌++◌, arith, length, flat_map,
  flat_map-append, All, All-append, All-append_right, flat_map-All, get_elem?,
}
use aiokpl.Common.Loop.{loop-flat_map}
use aiokpl.Common.Result.{ok}
use aiokpl.Aggregation.Types.{
  Bytes, Str, truncated_record_data, truncated_record_tag, out_of_fuel, Tag,
}
use aiokpl.Aggregation.Varint.RoundTrip.{decode_varint-encode_varint}
use aiokpl.Aggregation.Fields.{encode_length_delimited, encode_uint64_field}
use aiokpl.Aggregation.Fields.RoundTrip.{
  encode_length_delimited-append, encode_length_delimited_bounds, decode_tag_delimited,
  encode_uint64_field-append, encode_uint64_field_pos, decode_tag_uint64, read_delimited-encode,
}
use aiokpl.Aggregation.TagMessage.{encode_tag_msg}
use aiokpl.Aggregation.TagMessage.RoundTrip.{
  EncodableTag, TextTag, EncodableTag-of_short, decode_tag_msg-encode_tag_msg,
}
use aiokpl.Aggregation.RecordMessage.{
  ehk_entry, encode_ehk_index, encode_tags, encode_record_msg, RecordState, no_fields, record_round,
  record_result, decode_record_msg,
}

data Item : Type 0 where
  pk_item ehk_item : ℕ → Item
  data_item : Bytes → Item
  tag_item : Tag → Item

abbrev encode_item : Item → Bytes
encode_item (pk_item i) = encode_uint64_field 1 i []
encode_item (ehk_item i) = encode_uint64_field 2 i []
encode_item (data_item d) = encode_length_delimited 3 d []
encode_item (tag_item t) = encode_length_delimited 4 (encode_tag_msg t) []

abbrev update : RecordState → Item → RecordState
update s (pk_item i) = record s { pk_index = some i }
update s (ehk_item i) = record s { ehk_index = some i }
update s (data_item d) = record s { content = some d }
update s (tag_item t) = record s { tags = s.tags ++ t ∷ [] }

abbrev pub FitsTag : Tag → Type 0
FitsTag t = EncodableTag t × (length (encode_tag_msg t) < 2 ^ 70)

abbrev IsItem : Item → Type 0
IsItem (pk_item i) = i < 2 ^ 70
IsItem (ehk_item i) = i < 2 ^ 70
IsItem (data_item d) = length d < 2 ^ 70
IsItem (tag_item t) = FitsTag t

record_round-encode_item :
    (s : RecordState) (x : Item) (rest : Bytes)
    → IsItem x
    → record_round s (encode_item x ++ rest) ≡ ok (update s x, rest)
unfolding record_round
record_round-encode_item s (pk_item i) rest h =
    rw (decode_tag_uint64 1 i rest (omega arith)) (rw (decode_varint-encode_varint i rest h))
record_round-encode_item s (ehk_item i) rest h =
    rw (decode_tag_uint64 2 i rest (omega arith)) (rw (decode_varint-encode_varint i rest h))
record_round-encode_item s (data_item d) rest h =
    rw (decode_tag_delimited 3 d rest (omega arith))
      (rw (read_delimited-encode truncated_record_data d rest h))
record_round-encode_item s (tag_item t) rest h =
    rw (decode_tag_delimited 4 (encode_tag_msg t) rest (omega arith)) (
      rw (read_delimited-encode truncated_record_tag (encode_tag_msg t) rest h.1)
        (rw (decode_tag_msg-encode_tag_msg t h.0)))

encode_item_pos : (x : Item) → 0 < length (encode_item x)
encode_item_pos (pk_item i) = encode_uint64_field_pos 1 i
encode_item_pos (ehk_item i) = encode_uint64_field_pos 2 i
encode_item_pos (data_item d) = omega (arith, encode_length_delimited_bounds 3 d)
encode_item_pos (tag_item t) = omega (arith, encode_length_delimited_bounds 4 (encode_tag_msg t))

ehk_items : Option ℕ → List Item
ehk_items none = []
ehk_items (some i) = ehk_item i ∷ []

tag_items : List Tag → List Item
tag_items [] = []
tag_items (t ∷ ts) = tag_item t ∷ tag_items ts

items : ℕ → Option ℕ → Bytes → List Tag → List Item
items i j d ts = pk_item i ∷ ehk_items j ++ (data_item d ∷ tag_items ts)

encode_tags-items :
    (ts : List Tag) (out : Bytes) → encode_tags ts out ≡ out ++ flat_map encode_item (tag_items ts)
unfolding encode_tags tag_items
encode_tags-items [] out = sym (append-nil out)
encode_tags-items (t ∷ ts) out =
    encode_tags-items ts (encode_length_delimited 4 (encode_tag_msg t) out)
    ∙ ap (λ b. b ++ flat_map encode_item (tag_items ts))
        (encode_length_delimited-append 4 (encode_tag_msg t) out)
    ∙ append_assoc out _ _

encode_ehk_index-items :
    (j : Option ℕ) (out : Bytes)
    → encode_ehk_index j out ≡ out ++ flat_map encode_item (ehk_items j)
unfolding encode_ehk_index ehk_items
encode_ehk_index-items none out = sym (append-nil out)
encode_ehk_index-items (some i) out =
    encode_uint64_field-append 2 i out
    ∙ ap (◌++◌ out) (sym (append-nil (encode_uint64_field 2 i [])))

encode_record_msg-items :
    (i : ℕ) (j : Option ℕ) (d : Bytes) (ts : List Tag)
    → encode_record_msg i j d ts ≡ flat_map encode_item (items i j d ts)
unfolding encode_record_msg items
encode_record_msg-items i j d ts =
    rw
      (
        encode_tags-items ts
            (encode_length_delimited 3 d (encode_ehk_index j (encode_uint64_field 1 i []))),
        encode_length_delimited-append 3 d (encode_ehk_index j (encode_uint64_field 1 i [])),
        encode_ehk_index-items j (encode_uint64_field 1 i []),
        flat_map-append encode_item (ehk_items j) (data_item d ∷ tag_items ts),
      )
      (simp append_assoc)

foldl-tag_items :
    (ts : List Tag) (s : RecordState)
    → foldl update s (tag_items ts) ≡ record s { tags = s.tags ++ ts }
unfolding tag_items
foldl-tag_items [] s = ap (λ l. record s { tags = l }) (sym (append-nil s.tags))
foldl-tag_items (t ∷ ts) s =
    foldl-tag_items ts (record s { tags = s.tags ++ t ∷ [] })
    ∙ ap (λ l. record s { tags = l }) (append_assoc s.tags (t ∷ []) ts)

foldl-items :
    (i : ℕ) (j : Option ℕ) (d : Bytes) (ts : List Tag)
    → foldl update no_fields (items i j d ts)
      ≡ record { pk_index = some i; ehk_index = j; content = some d; tags = ts }
unfolding items ehk_items
foldl-items i none d ts =
    foldl-tag_items ts (record { pk_index = some i; ehk_index = none; content = some d; tags = [] })
foldl-items i (some j) d ts =
    foldl-tag_items ts
      (record { pk_index = some i; ehk_index = some j; content = some d; tags = [] })

-- The optional index stands for the optional key in the table.
abbrev pub EhkAt : List Str → Option ℕ → Option Str → Type 0
EhkAt table none none = Unit
EhkAt table (some j) (some key) = get_elem? table j ≡ some key
EhkAt table _ _ = ⊥

record_result_lem :
    (pks ehks : List Str) (i : ℕ) (j : Option ℕ) (d : Bytes) (ts : List Tag) (pk : Str)
    (ehk : Option Str)
    → get_elem? pks i ≡ some pk
    → EhkAt ehks j ehk
    → record_result pks ehks
        (record { pk_index = some i; ehk_index = j; content = some d; tags = ts })
      ≡ ok (record { partition_key = pk; explicit_hash_key = ehk; content = d; tags = ts })
unfolding record_result
record_result_lem pks ehks i none d ts pk none h k = rw h
record_result_lem pks ehks i none d ts pk (some key) h k = absurd k
record_result_lem pks ehks i (some j) d ts pk none h k = absurd k
record_result_lem pks ehks i (some j) d ts pk (some key) h k = rw h (rw (k, ehk_entry))

abbrev pub IsIndex : Option ℕ → Type 0
IsIndex none = Unit
IsIndex (some j) = j < 2 ^ 70

abbrev IsShort : Item → Type 0
IsShort x = length (encode_item x) < 2 ^ 70

ehk_items-IsItem : (j : Option ℕ) → IsIndex j → All IsItem (ehk_items j)
unfolding ehk_items
ehk_items-IsItem none h = tt
ehk_items-IsItem (some j) h = (h, tt)

tag_items-IsItem :
    (ts : List Tag) → All TextTag ts → All IsShort (tag_items ts) → All IsItem (tag_items ts)
unfolding tag_items
tag_items-IsItem [] h k = tt
tag_items-IsItem (t ∷ ts) h k =
    let short : length (encode_tag_msg t) < 2 ^ 70 =
      omega (arith, encode_length_delimited_bounds 4 (encode_tag_msg t), k.0) in
    ((EncodableTag-of_short t h.0 short, short), tag_items-IsItem ts h.1 k.1)

items-IsItem :
    (i : ℕ) (j : Option ℕ) (d : Bytes) (ts : List Tag)
    → i < 2 ^ 70
    → IsIndex j
    → All TextTag ts
    → length (flat_map encode_item (items i j d ts)) < 2 ^ 70
    → All IsItem (items i j d ts)
unfolding items
items-IsItem i j d ts hi hj texts short =
    let all : All IsShort (pk_item i ∷ ehk_items j ++ (data_item d ∷ tag_items ts)) =
      flat_map-All encode_item (2 ^ 70) (pk_item i ∷ ehk_items j ++ (data_item d ∷ tag_items ts))
        short in
    let body : All IsShort (data_item d ∷ tag_items ts) =
      All-append_right IsShort (ehk_items j) (data_item d ∷ tag_items ts) all.1 in
    (
      hi,
      All-append IsItem (ehk_items j) (data_item d ∷ tag_items ts) (ehk_items-IsItem j hj) (
        omega (arith, encode_length_delimited_bounds 3 d, body.0),
        tag_items-IsItem ts texts body.1,
      ),
    )

-- Decoding the encoding of a record gives its data and tags, and the keys that the tables hold
-- at its indices, if the tags are texts and the message and the indices are below 2 ^ 70.
pub decode_record_msg-encode_record_msg :
    (pks ehks : List Str) (i : ℕ) (j : Option ℕ) (d : Bytes) (ts : List Tag) (pk : Str)
    (ehk : Option Str)
    → get_elem? pks i ≡ some pk
    → EhkAt ehks j ehk
    → i < 2 ^ 70
    → IsIndex j
    → All TextTag ts
    → length (encode_record_msg i j d ts) < 2 ^ 70
    → decode_record_msg (encode_record_msg i j d ts) pks ehks
      ≡ ok (record { partition_key = pk; explicit_hash_key = ehk; content = d; tags = ts })
unfolding decode_record_msg
decode_record_msg-encode_record_msg pks ehks i j d ts pk ehk h k hi hj texts short =
    rw (encode_record_msg-items i j d ts) (
      rw
        (
          loop-flat_map record_round out_of_fuel encode_item update IsItem record_round-encode_item
              encode_item_pos (items i j d ts) (length (flat_map encode_item (items i j d ts)))
              no_fields (items-IsItem i j d ts hi hj texts (rw encode_record_msg-items at short))
              (omega arith),
          foldl-items i j d ts,
        )
        (record_result_lem pks ehks i j d ts pk ehk h k))
