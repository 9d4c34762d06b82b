-- ===== src/Aggregation/Codec/Items.antt =====
-- The message of a builder as a list of fields, and what the decoding loop makes of each.
use mathlib.Core.List.{foldl, foldl-append, append_assoc, append-nil}
use aiokpl.Common.{
  ℕ, ◌^◌, ◌≤◌, ◌<◌, ◌≡◌, ◌∙◌, refl, sym, ap, List, [], ◌∷◌, ◌++◌, map, length-map, arith, length,
  length-append, flat_map, flat_map-append, flat_map-All, All, All-append_right,
}
use aiokpl.Common.Eq.{nat_Eq}
use aiokpl.Common.Result.{ok}
use aiokpl.Aggregation.Types.{
  Bytes, Str, truncated_partition_key, truncated_explicit_hash_key, truncated_record,
}
use aiokpl.Aggregation.Utf8.{utf8_encode, IsText}
use aiokpl.Aggregation.Utf8.RoundTrip.{utf8_decode-utf8_encode}
use aiokpl.Aggregation.Fields.{encode_length_delimited}
use aiokpl.Aggregation.Fields.RoundTrip.{
  encode_length_delimited-append, encode_length_delimited_bounds, decode_tag_delimited,
  read_delimited-encode,
}
use aiokpl.Aggregation.TagMessage.RoundTrip.{Encodable}
use aiokpl.Aggregation.Builder.{AggregatedBuilder, put_texts, put_records, serialize}
use aiokpl.Aggregation.Codec.{AggregatedState, no_entries, aggregated_round}

pub data Item : Type 0 where
  pk_item ehk_item : Str → Item
  record_item : Bytes → Item

abbrev pub encode_item : Item → Bytes
encode_item (pk_item k) = encode_length_delimited 1 (utf8_encode k) []
encode_item (ehk_item k) = encode_length_delimited 2 (utf8_encode k) []
encode_item (record_item b) = encode_length_delimited 3 b []

abbrev pub update : AggregatedState → Item → AggregatedState
update s (pk_item k) = record s { pk_table = s.pk_table ++ k ∷ [] }
update s (ehk_item k) = record s { ehk_table = s.ehk_table ++ k ∷ [] }
update s (record_item b) = record s { record_blobs = s.record_blobs ++ b ∷ [] }

abbrev pub IsItem : Item → Type 0
IsItem (pk_item k) = Encodable k
IsItem (ehk_item k) = Encodable k
IsItem (record_item b) = length b < 2 ^ 70

pub aggregated_round-encode_item :
    (s : AggregatedState) (x : Item) (rest : Bytes)
    → IsItem x
    → aggregated_round s (encode_item x ++ rest) ≡ ok (update s x, rest)
unfolding aggregated_round
aggregated_round-encode_item s (pk_item k) rest h =
    rw (decode_tag_delimited 1 (utf8_encode k) rest (omega arith)) (
      rw (read_delimited-encode truncated_partition_key (utf8_encode k) rest h.1)
        (rw (utf8_decode-utf8_encode k h.0)))
aggregated_round-encode_item s (ehk_item k) rest h =
    rw (decode_tag_delimited 2 (utf8_encode k) rest (omega arith)) (
      rw (read_delimited-encode truncated_explicit_hash_key (utf8_encode k) rest h.1)
        (rw (utf8_decode-utf8_encode k h.0)))
aggregated_round-encode_item s (record_item b) rest h =
    rw (decode_tag_delimited 3 b rest (omega arith))
      (rw (read_delimited-encode truncated_record b rest h))

pub encode_item_pos : (x : Item) → 0 < length (encode_item x)
encode_item_pos (pk_item k) = omega (arith, encode_length_delimited_bounds 1 (utf8_encode k))
encode_item_pos (ehk_item k) = omega (arith, encode_length_delimited_bounds 2 (utf8_encode k))
encode_item_pos (record_item b) = omega (arith, encode_length_delimited_bounds 3 b)

pub items : AggregatedBuilder → List Item
items b =
    map pk_item b.partition_keys ++ (map ehk_item b.explicit_hash_keys ++ map record_item b.records)

put_texts-items :
    (f : ℕ) (item : Str → Item) (ks : List Str) (out : Bytes)
    → ((k : Str) → encode_item (item k) ≡ encode_length_delimited f (utf8_encode k) [])
    → put_texts f ks out ≡ out ++ flat_map encode_item (map item ks)
unfolding put_texts
put_texts-items f item [] out e = sym (append-nil out)
put_texts-items f item (k ∷ ks) out e =
    put_texts-items f item ks (encode_length_delimited f (utf8_encode k) out) e
    ∙ ap (λ b. b ++ flat_map encode_item (map item ks))
        (encode_length_delimited-append f (utf8_encode k) out ∙ ap (◌++◌ out) (sym (e k)))
    ∙ append_assoc out _ _

put_records-items :
    (blobs : List Bytes) (out : Bytes)
    → put_records blobs out ≡ out ++ flat_map encode_item (map record_item blobs)
unfolding put_records
put_records-items [] out = sym (append-nil out)
put_records-items (b ∷ blobs) out =
    put_records-items blobs (encode_length_delimited 3 b out)
    ∙ ap (λ t. t ++ flat_map encode_item (map record_item blobs))
        (encode_length_delimited-append 3 b out)
    ∙ append_assoc out _ _

pub serialize-items : (b : AggregatedBuilder) → serialize b ≡ flat_map encode_item (items b)
unfolding serialize items
serialize-items b =
    rw
      (
        put_records-items b.records
            (put_texts 2 b.explicit_hash_keys (put_texts 1 b.partition_keys [])),
        put_texts-items 2 ehk_item b.explicit_hash_keys (put_texts 1 b.partition_keys [])
            (λ k. refl),
        put_texts-items 1 pk_item b.partition_keys [] (λ k. refl),
        flat_map-append encode_item (map pk_item b.partition_keys)
            (map ehk_item b.explicit_hash_keys ++ map record_item b.records),
        flat_map-append encode_item (map ehk_item b.explicit_hash_keys) (map record_item b.records),
      )
      (append_assoc (flat_map encode_item (map pk_item b.partition_keys))
        (flat_map encode_item (map ehk_item b.explicit_hash_keys))
        (flat_map encode_item (map record_item b.records)))

foldl-pk :
    (ks : List Str) (s : AggregatedState)
    → foldl update s (map pk_item ks) ≡ record s { pk_table = s.pk_table ++ ks }
foldl-pk [] s = ap (λ l. record s { pk_table = l }) (sym (append-nil s.pk_table))
foldl-pk (k ∷ ks) s =
    foldl-pk ks (record s { pk_table = s.pk_table ++ k ∷ [] })
    ∙ ap (λ l. record s { pk_table = l }) (append_assoc s.pk_table (k ∷ []) ks)

foldl-ehk :
    (ks : List Str) (s : AggregatedState)
    → foldl update s (map ehk_item ks) ≡ record s { ehk_table = s.ehk_table ++ ks }
foldl-ehk [] s = ap (λ l. record s { ehk_table = l }) (sym (append-nil s.ehk_table))
foldl-ehk (k ∷ ks) s =
    foldl-ehk ks (record s { ehk_table = s.ehk_table ++ k ∷ [] })
    ∙ ap (λ l. record s { ehk_table = l }) (append_assoc s.ehk_table (k ∷ []) ks)

foldl-records :
    (bs : List Bytes) (s : AggregatedState)
    → foldl update s (map record_item bs) ≡ record s { record_blobs = s.record_blobs ++ bs }
foldl-records [] s = ap (λ l. record s { record_blobs = l }) (sym (append-nil s.record_blobs))
foldl-records (b ∷ bs) s =
    foldl-records bs (record s { record_blobs = s.record_blobs ++ b ∷ [] })
    ∙ ap (λ l. record s { record_blobs = l }) (append_assoc s.record_blobs (b ∷ []) bs)

-- The state that the loop ends in.
pub foldl-items :
    (b : AggregatedBuilder)
    → foldl update no_entries (items b) ≡ record {
      pk_table = b.partition_keys;
      ehk_table = b.explicit_hash_keys;
      record_blobs = b.records;
    }
unfolding items
foldl-items b = rw (
  foldl-append update no_entries (map pk_item b.partition_keys)
      (map ehk_item b.explicit_hash_keys ++ map record_item b.records),
  foldl-pk b.partition_keys no_entries,
  foldl-append update (record no_entries { pk_table = b.partition_keys })
      (map ehk_item b.explicit_hash_keys) (map record_item b.records),
  foldl-ehk b.explicit_hash_keys (record no_entries { pk_table = b.partition_keys }),
  foldl-records b.records
      (record no_entries { pk_table = b.partition_keys; ehk_table = b.explicit_hash_keys }),
)

abbrev IsShort : Item → Type 0
IsShort x = length (encode_item x) < 2 ^ 70

keys-IsItem :
    (item : Str → Item)
    → ((k : Str) → IsText k → IsShort (item k) → IsItem (item k))
    → (ks : List Str) (rest : List Item) → All IsText ks
    → All IsShort (map item ks ++ rest)
    → All IsItem rest
    → All IsItem (map item ks ++ rest)
keys-IsItem item one [] rest h k r = r
keys-IsItem item one (x ∷ ks) rest h k r = (one x h.0 k.0, keys-IsItem item one ks rest h.1 k.1 r)

pub records-short :
    (bs : List Bytes) → All IsShort (map record_item bs) → All (λ b. length b < 2 ^ 70) bs
records-short [] h = tt
records-short (b ∷ bs) h =
    (omega (arith, encode_length_delimited_bounds 3 b, h.0), records-short bs h.1)

records-IsItem :
    (bs : List Bytes) → All (λ b. length b < 2 ^ 70) bs → All IsItem (map record_item bs)
records-IsItem [] h = tt
records-IsItem (b ∷ bs) h = (h.0, records-IsItem bs h.1)

-- A message below 2 ^ 70 bytes over tables of texts has only fields that the loop reads back.
module _ (b : AggregatedBuilder) (short : length (serialize b) < 2 ^ 70) where
  All-IsShort : All IsShort (items b)
  All-IsShort = flat_map-All encode_item (2 ^ 70) (items b) (rw serialize-items at short)

  pub blobs_short : All (λ blob. length blob < 2 ^ 70) b.records
  unfolding items
  blobs_short = records-short b.records (
      All-append_right IsShort (map ehk_item b.explicit_hash_keys) (map record_item b.records) (
        All-append_right IsShort (map pk_item b.partition_keys)
          (map ehk_item b.explicit_hash_keys ++ map record_item b.records) All-IsShort))

  pub items-IsItem :
      All IsText b.partition_keys → All IsText b.explicit_hash_keys → All IsItem (items b)
  unfolding items
  items-IsItem h k =
      let ehks =
        All-append_right IsShort (map pk_item b.partition_keys)
          (map ehk_item b.explicit_hash_keys ++ map record_item b.records) All-IsShort in
      keys-IsItem pk_item
        (λ k h s. (h, omega (arith, encode_length_delimited_bounds 1 (utf8_encode k))))
        b.partition_keys _ h All-IsShort
        (keys-IsItem ehk_item
          (λ k h s. (h, omega (arith, encode_length_delimited_bounds 2 (utf8_encode k))))
          b.explicit_hash_keys _ k ehks (records-IsItem b.records blobs_short))

length-le-flat_map : (xs : List Item) → length xs ≤ length (flat_map encode_item xs)
length-le-flat_map [] = omega arith
length-le-flat_map (x ∷ xs) = omega (
  arith,
  length-append (encode_item x) (flat_map encode_item xs),
  encode_item_pos x,
  length-le-flat_map xs,
)

-- Every entry of a table takes a byte at least, so an index is below the length of the message.
pub length-keys :
    (b : AggregatedBuilder)
    → (length b.partition_keys ≤ length (serialize b))
      × (length b.explicit_hash_keys ≤ length (serialize b))
unfolding items
length-keys b =
    let total = length-le-flat_map (items b) in
    let outer =
      length-append (map pk_item b.partition_keys)
        (map ehk_item b.explicit_hash_keys ++ map record_item b.records) in
    let inner = length-append (map ehk_item b.explicit_hash_keys) (map record_item b.records) in
    let pks = length-map pk_item b.partition_keys in
    let ehks = length-map ehk_item b.explicit_hash_keys in
    rw (serialize-items b) (omega arith, omega arith)
