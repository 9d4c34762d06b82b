-- ===== src/Aggregation/TagMessage/Shrink.antt =====
-- The loop of `_decode_tag_msg` ends.
use aiokpl.Common.{ℕ, ◌/◌, ◌%◌, ◌<◌, ◌≢◌, arith, length}
use aiokpl.Common.Result.{err, >>=-ne-err}
use aiokpl.Aggregation.Types.{Bytes, truncated_tag_key, truncated_tag_value, out_of_fuel}
use aiokpl.Aggregation.Utf8.{utf8_decode}
use aiokpl.Aggregation.Utf8.RoundTrip.{utf8_decode-ne-out_of_fuel}
use aiokpl.Aggregation.Consumes.{
  Consumes, Consumes-ok, Consumes-if, Consumes-pure, Consumes-varint, Consumes-delimited,
  Consumes-skip, loop-Consumes,
}
use aiokpl.Aggregation.TagMessage.{TagState, tag_field, tag_round, tag_result, decode_tag_msg}

tag_field-Consumes :
    (n f w : ℕ) (s : TagState) (pos : Bytes) → length pos < n → Consumes n (tag_field f w s pos)
unfolding tag_field
tag_field-Consumes n f w s pos h =
    Consumes-if n _ _ _
      (Consumes-delimited n truncated_tag_key pos _ (λ e. cc e)
        (λ p rest k.
          Consumes-pure n (utf8_decode p) _ (utf8_decode-ne-out_of_fuel p)
            (λ t. Consumes-ok n _ rest (omega arith))))
      (Consumes-if n _ _ _
        (Consumes-delimited n truncated_tag_value pos _ (λ e. cc e)
          (λ p rest k.
            Consumes-pure n (utf8_decode p) _ (utf8_decode-ne-out_of_fuel p)
              (λ t. Consumes-ok n _ rest (omega arith))))
        (Consumes-skip n pos w _ (λ rest k. Consumes-ok n _ rest (omega arith))))

tag_round-Consumes : (s : TagState) (buf : Bytes) → Consumes (length buf) (tag_round s buf)
unfolding tag_round
tag_round-Consumes s buf =
    Consumes-varint (length buf) buf _
      (λ tag pos h. tag_field-Consumes (length buf) (tag / 8) (tag % 8) s pos h)

tag_result_fresh : (s : TagState) → tag_result s ≢ err out_of_fuel
unfolding tag_result
tag_result_fresh s = ground arith

pub decode_tag_msg-ne-out_of_fuel : (buf : Bytes) → decode_tag_msg buf ≢ err out_of_fuel
unfolding decode_tag_msg
decode_tag_msg-ne-out_of_fuel buf =
    >>=-ne-err _ _ out_of_fuel (loop-Consumes tag_round tag_round-Consumes _ buf) tag_result_fresh
