-- ===== src/Aggregation/Codec/RoundTrip.antt =====
-- Decoding an aggregated payload gives the records that were encoded.
use aiokpl.Common.{
  ℕ, ◌-◌, ◌^◌, ◌≤◌, ◌<◌, ◌≡◌, ◌∙◌, refl, ap, true, Option, none, some, List, [], ◌∷◌, ◌++◌, map,
  arith, length, length-append, take, drop, take-append, drop-append, flat_map, All, le→ltb,
  get_elem?-lt-length,
}
use aiokpl.Common.Eq.{nat_Eq, list_beq_iff}
use aiokpl.Common.Loop.{loop-flat_map}
use aiokpl.Common.Result.{ok}
use aiokpl.Aggregation.Types.{Bytes, Str, out_of_fuel, UserRecord, DecodedRecord}
use aiokpl.Aggregation.RecordMessage.RoundTrip.{EhkAt, IsIndex, decode_record_msg-encode_record_msg}
use aiokpl.Aggregation.Builder.{AggregatedBuilder, empty_builder, add_all, serialize}
use aiokpl.Aggregation.Builder.RoundTrip.{
  TextRecord, StandAll, Agrees, Agrees-empty, add_all-Agrees,
}
use aiokpl.Aggregation.Codec.{
  magic, md5_len, starts_with, no_entries, aggregated_round, decode_records, decode_proto,
  encode_aggregated, decode_aggregated,
}
use aiokpl.Aggregation.Codec.Items.{
  encode_item, update, IsItem, items, encode_item_pos, aggregated_round-encode_item,
  serialize-items, foldl-items, items-IsItem, blobs_short, length-keys,
}

-- The record as the decoder returns it.
abbrev pub decoded : UserRecord → DecodedRecord
decoded r = record {
  partition_key = r.partition_key;
  explicit_hash_key = r.explicit_hash_key;
  content = r.content;
  tags = r.tags;
}

EhkAt-IsIndex :
    (t : List Str) (j : Option ℕ) (k : Option Str) → length t < 2 ^ 70 → EhkAt t j k → IsIndex j
EhkAt-IsIndex t none none h e = tt
EhkAt-IsIndex t none (some k) h e = tt
EhkAt-IsIndex t (some j) none h e = absurd e
EhkAt-IsIndex t (some j) (some k) h e = omega (arith, get_elem?-lt-length t j e)

module _ (pks ehks : List Str) (hp : length pks < 2 ^ 70) (he : length ehks < 2 ^ 70) where
  decode_records-StandAll :
      (blobs : List Bytes) (rs : List UserRecord)
      → All TextRecord rs
      → All (λ b. length b < 2 ^ 70) blobs
      → StandAll pks ehks blobs rs
      → decode_records pks ehks blobs ≡ ok (map decoded rs)
  unfolding decode_records
  decode_records-StandAll [] [] texts short h = refl
  decode_records-StandAll [] (r ∷ rs) texts short h = absurd h
  decode_records-StandAll (b ∷ bs) [] texts short h = absurd h
  decode_records-StandAll (b ∷ bs) (r ∷ rs) texts short h =
      let s = h.0 in
      let one =
        decode_record_msg-encode_record_msg pks ehks s.i s.j r.content r.tags r.partition_key
          r.explicit_hash_key s.pk s.ehk (omega (arith, get_elem?-lt-length pks s.i s.pk))
          (EhkAt-IsIndex ehks s.j r.explicit_hash_key he s.ehk) texts.0.tags
          (rw s.encoded at short.0) in
      rw s.encoded (rw one (rw (decode_records-StandAll bs rs texts.1 short.1 h.1)))

decode_proto-serialize :
    (b : AggregatedBuilder) (rs : List UserRecord)
    → All TextRecord rs
    → Agrees b rs
    → length (serialize b) < 2 ^ 70
    → decode_proto (serialize b) ≡ ok (map decoded rs)
unfolding decode_proto
decode_proto-serialize b rs texts v short = rw (serialize-items b) (
    rw
      (
        loop-flat_map aggregated_round out_of_fuel encode_item update IsItem
            aggregated_round-encode_item encode_item_pos (items b)
            (length (flat_map encode_item (items b))) no_entries
            (items-IsItem b short v.pk_texts v.ehk_texts) (omega arith),
        foldl-items b,
      )
      (decode_records-StandAll b.partition_keys b.explicit_hash_keys
        (omega (arith, (length-keys b).0)) (omega (arith, (length-keys b).1)) b.records rs texts
        (blobs_short b short) v.stand))

-- The frame: magic, message, digest.
module _ (md5 : Bytes → Bytes) (digest : (b : Bytes) → length (md5 b) ≡ md5_len) where
  -- A payload whose parts are a message and its digest.
  decode_aggregated_parts :
      (payload proto : Bytes)
      → 20 ≤ length payload
      → starts_with magic payload ≡ true
      → take (length payload - md5_len - length magic) (drop (length magic) payload) ≡ proto
      → drop (length payload - md5_len) payload ≡ md5 proto
      → decode_aggregated md5 payload ≡ decode_proto proto
  unfolding decode_aggregated
  decode_aggregated_parts payload proto h m p q =
      rw (le→ltb (length payload) 20 h)
        (rw m (rw (p, q) (rw ((list_beq_iff (md5 proto) (md5 proto)).1 refl))))

  decode_aggregated-frame :
      (proto : Bytes) → decode_aggregated md5 (magic ++ (proto ++ md5 proto)) ≡ decode_proto proto
  decode_aggregated-frame proto =
      let n = length-append proto (md5 proto) in
      let d = digest proto in
      decode_aggregated_parts (magic ++ (proto ++ md5 proto)) proto (omega arith) refl
        (ap (λ k. take k (proto ++ md5 proto)) {y = length proto} (omega arith)
          ∙ take-append proto (md5 proto))
        (ap (λ k. drop k (magic ++ (proto ++ md5 proto))) {y = length (magic ++ proto)}
            (omega arith)
          ∙ drop-append (magic ++ proto) (md5 proto))

  -- Decoding the encoding of two or more records gives the records, in order and with their keys,
  -- data and tags, for every digest function of 16 bytes, if the keys and tags are texts without
  -- surrogates and the payload is below 2 ^ 70 bytes.
  pub decode_aggregated-encode_aggregated :
      (r s : UserRecord) (rs : List UserRecord) (payload : Bytes)
      → All TextRecord (r ∷ s ∷ rs)
      → encode_aggregated md5 (r ∷ s ∷ rs) ≡ ok payload
      → length payload < 2 ^ 70
      → decode_aggregated md5 payload ≡ ok (map decoded (r ∷ s ∷ rs))
  unfolding encode_aggregated
  decode_aggregated-encode_aggregated r s rs payload texts e short =
      let all = r ∷ s ∷ rs in
      let b = add_all empty_builder all in
      let q : magic ++ (serialize b ++ md5 (serialize b)) ≡ payload = cc e in
      rw (← q) (
        decode_aggregated-frame (serialize b)
        ∙ decode_proto-serialize b all texts
            (add_all-Agrees empty_builder [] all texts Agrees-empty)
            (omega (
              arith,
              ap (λ (t : Bytes). length t) q,
              length-append (serialize b) (md5 (serialize b)),
            )))
