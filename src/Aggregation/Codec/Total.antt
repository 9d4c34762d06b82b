-- ===== src/Aggregation/Codec/Total.antt =====
-- The decoder's loops end on every payload, well formed or not.
use aiokpl.Common.{
  ℕ, ◌/◌, ◌%◌, ◌&&◌, ◌<◌, ◌≢◌, ◌++◌, List, [], ◌∷◌, arith, ltb, not, ◌+◌, ◌==◌, length, Bool, true,
  false,
}
use aiokpl.Common.Eq.{nat_Eq, list_beq}
use aiokpl.Common.Result.{err, >>=-ne-err, raise_if}
use aiokpl.Aggregation.Types.{
  Bytes, Str, CodecError, truncated_partition_key, truncated_explicit_hash_key, truncated_record,
  out_of_fuel, payload_too_short, bad_magic, checksum_mismatch,
}
use aiokpl.Aggregation.Fields.{wire_length_delimited}
use aiokpl.Aggregation.Utf8.{utf8_decode}
use aiokpl.Aggregation.Utf8.RoundTrip.{utf8_decode-ne-out_of_fuel}
use aiokpl.Aggregation.RecordMessage.Shrink.{decode_record_msg-ne-out_of_fuel}
use aiokpl.Aggregation.Consumes.{
  Consumes, Consumes-ok, Consumes-if, Consumes-pure, Consumes-varint, Consumes-delimited,
  Consumes-skip, loop-Consumes,
}
use aiokpl.Aggregation.Codec.{
  AggregatedState, aggregated_field, aggregated_round, decode_records, decode_proto,
  decode_aggregated, magic, md5_len, starts_with,
}
use aiokpl.Aggregation.Codec.Gate.{proto_of, digest_of}

aggregated_field-Consumes :
    (n f w : ℕ) (s : AggregatedState) (pos : Bytes)
    → length pos < n
    → Consumes n (aggregated_field f w s pos)
unfolding aggregated_field
aggregated_field-Consumes n f w s pos h =
    Consumes-if n (f == 1 && w == wire_length_delimited) _ _
      (Consumes-delimited n truncated_partition_key pos _ (λ e. cc e)
        (λ p rest k.
          Consumes-pure n (utf8_decode p) _ (utf8_decode-ne-out_of_fuel p)
            (λ t. Consumes-ok n (record s { pk_table = s.pk_table ++ t ∷ [] }) rest (omega arith))))
      (Consumes-if n (f == 2 && w == wire_length_delimited) _ _
        (Consumes-delimited n truncated_explicit_hash_key pos _ (λ e. cc e)
          (λ p rest k. Consumes-pure n (utf8_decode p) _ (utf8_decode-ne-out_of_fuel p) (λ t.
            Consumes-ok n (record s { ehk_table = s.ehk_table ++ t ∷ [] }) rest (omega arith))))
        (Consumes-if n (f == 3 && w == wire_length_delimited) _ _
          (Consumes-delimited n truncated_record pos _ (λ e. cc e)
            (λ p rest k.
              Consumes-ok n (record s { record_blobs = s.record_blobs ++ p ∷ [] }) rest
                (omega arith)))
          (Consumes-skip n pos w _ (λ rest k. Consumes-ok n s rest (omega arith)))))

aggregated_round-Consumes :
    (s : AggregatedState) (buf : Bytes) → Consumes (length buf) (aggregated_round s buf)
unfolding aggregated_round
aggregated_round-Consumes s buf =
    Consumes-varint (length buf) buf _
      (λ tag pos h. aggregated_field-Consumes (length buf) (tag / 8) (tag % 8) s pos h)

decode_records_fresh :
    (pks ehks : List Str) (blobs : List Bytes) → decode_records pks ehks blobs ≢ err out_of_fuel
unfolding decode_records
decode_records_fresh pks ehks [] = λ q. cc q
decode_records_fresh pks ehks (b ∷ bs) =
    >>=-ne-err _ _ out_of_fuel (decode_record_msg-ne-out_of_fuel b pks ehks)
      (λ r. >>=-ne-err _ _ out_of_fuel (decode_records_fresh pks ehks bs) (λ rs q. cc q))

decode_proto_fresh : (proto : Bytes) → decode_proto proto ≢ err out_of_fuel
unfolding decode_proto
decode_proto_fresh proto =
    >>=-ne-err _ _ out_of_fuel (loop-Consumes aggregated_round aggregated_round-Consumes _ proto)
      (λ s. decode_records_fresh s.pk_table s.ehk_table s.record_blobs)

raise_if_fresh : (b : Bool) (e : CodecError) → e ≢ out_of_fuel → raise_if b e ≢ err out_of_fuel
raise_if_fresh true e h = λ q. h (cc q)
raise_if_fresh false e h = λ q. cc q

-- On every payload and for every digest function the decoder ends by itself: it returns records,
-- or one of the errors that the source raises, and never lacks rounds for one of its loops.
pub decode_aggregated-ne-out_of_fuel :
    (md5 : Bytes → Bytes) (payload : Bytes) → decode_aggregated md5 payload ≢ err out_of_fuel
unfolding decode_aggregated
decode_aggregated-ne-out_of_fuel md5 payload =
    >>=-ne-err (raise_if (ltb (length payload) (length magic + md5_len)) payload_too_short) _
      out_of_fuel (raise_if_fresh _ payload_too_short (λ q. cc q))
      (λ _.
        >>=-ne-err (raise_if (not (starts_with magic payload)) bad_magic) _ out_of_fuel
          (raise_if_fresh _ bad_magic (λ q. cc q))
          (λ _.
            >>=-ne-err
              (raise_if (not (list_beq (md5 (proto_of payload)) (digest_of payload)))
                checksum_mismatch)
              _ out_of_fuel (raise_if_fresh _ checksum_mismatch (λ q. cc q))
              (λ _. decode_proto_fresh (proto_of payload))))
