-- ===== src/Aggregation/RecordMessage/Shrink.antt =====
-- The loop of `_decode_record_msg` ends.
use aiokpl.Common.{
  ◌==◌, ◌&&◌, ◌++◌, [], ◌∷◌, ℕ, ◌/◌, ◌%◌, ◌<◌, ◌≢◌, arith, length, Option, none, some, List,
  get_elem?,
}
use aiokpl.Common.Result.{err, >>=-ne-err}
use aiokpl.Aggregation.Types.{
  Bytes, Str, CodecError, truncated_record_data, truncated_record_tag, out_of_fuel,
}
use aiokpl.Aggregation.Fields.{wire_varint, wire_length_delimited}
use aiokpl.Aggregation.TagMessage.{decode_tag_msg}
use aiokpl.Aggregation.TagMessage.Shrink.{decode_tag_msg-ne-out_of_fuel}
use aiokpl.Aggregation.Consumes.{
  Consumes, Consumes-ok, Consumes-if, Consumes-pure, Consumes-varint, Consumes-delimited,
  Consumes-skip, loop-Consumes,
}
use aiokpl.Aggregation.RecordMessage.{
  RecordState, record_field, record_round, record_result, required, ehk_entry, decode_record_msg,
}

record_field-Consumes :
    (n f w : ℕ) (s : RecordState) (pos : Bytes)
    → length pos < n
    → Consumes n (record_field f w s pos)
unfolding record_field
record_field-Consumes n f w s pos h =
    Consumes-if n (f == 1 && w == wire_varint) _ _
      (Consumes-varint n pos _
        (λ v rest k. Consumes-ok n (record s { pk_index = some v }) rest (omega arith)))
      (Consumes-if n (f == 2 && w == wire_varint) _ _
        (Consumes-varint n pos _
          (λ v rest k. Consumes-ok n (record s { ehk_index = some v }) rest (omega arith)))
        (Consumes-if n (f == 3 && w == wire_length_delimited) _ _
          (Consumes-delimited n truncated_record_data pos _ (λ e. cc e)
            (λ p rest k. Consumes-ok n (record s { content = some p }) rest (omega arith)))
          (Consumes-if n (f == 4 && w == wire_length_delimited) _ _
            (Consumes-delimited n truncated_record_tag pos _ (λ e. cc e)
              (λ p rest k.
                Consumes-pure n (decode_tag_msg p) _ (decode_tag_msg-ne-out_of_fuel p)
                  (λ t. Consumes-ok n (record s { tags = s.tags ++ t ∷ [] }) rest (omega arith))))
            (Consumes-skip n pos w _ (λ rest k. Consumes-ok n s rest (omega arith))))))

record_round-Consumes : (s : RecordState) (buf : Bytes) → Consumes (length buf) (record_round s buf)
unfolding record_round
record_round-Consumes s buf =
    Consumes-varint (length buf) buf _
      (λ tag pos h. record_field-Consumes (length buf) (tag / 8) (tag % 8) s pos h)

required_fresh {ℓ} :
    {A : Type ℓ} (o : Option A) (e : CodecError) → e ≢ out_of_fuel → required o e ≢ err out_of_fuel
unfolding required
required_fresh none e h = λ q. h (cc q)
required_fresh (some a) e h = λ q. cc q

ehk_entry_fresh : (table : List Str) (j : Option ℕ) → ehk_entry table j ≢ err out_of_fuel
unfolding ehk_entry
ehk_entry_fresh table none = λ q. cc q
ehk_entry_fresh table (some j) = ground arith

record_result_fresh :
    (pks ehks : List Str) (s : RecordState) → record_result pks ehks s ≢ err out_of_fuel
unfolding record_result
record_result_fresh pks ehks s =
    >>=-ne-err _ _ out_of_fuel (required_fresh s.pk_index _ (λ q. cc q)) (λ i.
      >>=-ne-err _ _ out_of_fuel (required_fresh s.content _ (λ q. cc q)) (λ d.
        >>=-ne-err _ _ out_of_fuel (required_fresh (get_elem? pks i) _ (λ q. cc q))
          (λ pk. >>=-ne-err _ _ out_of_fuel (ehk_entry_fresh ehks s.ehk_index) (λ k q. cc q))))

pub decode_record_msg-ne-out_of_fuel :
    (buf : Bytes) (pks ehks : List Str) → decode_record_msg buf pks ehks ≢ err out_of_fuel
unfolding decode_record_msg
decode_record_msg-ne-out_of_fuel buf pks ehks =
    >>=-ne-err _ _ out_of_fuel (loop-Consumes record_round record_round-Consumes _ buf)
      (record_result_fresh pks ehks)
