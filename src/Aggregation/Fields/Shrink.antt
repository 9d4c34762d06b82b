-- ===== src/Aggregation/Fields/Shrink.antt =====
-- The readers of a field return less than the buffer, and never report missing rounds.
use aiokpl.Common.{◌<◌, ◌≡◌, ◌≢◌, ℕ, inl, inr, arith, length, length-drop}
use aiokpl.Common.Result.{ok, err, >>=-ne-err, >>=-eq-ok, Result-cases}
use aiokpl.Aggregation.Types.{Bytes, CodecError, truncated_field, out_of_fuel}
use aiokpl.Aggregation.Varint.{decode_varint}
use aiokpl.Aggregation.Varint.Shrink.{decode_varint_shrinks, decode_varint-ne-out_of_fuel}
use aiokpl.Aggregation.Fields.{read_delimited, skip_unknown}

pub read_delimited_shrinks :
    (e : CodecError) (buf p rest : Bytes)
    → read_delimited e buf ≡ ok (p, rest)
    → length rest < length buf
unfolding read_delimited
read_delimited_shrinks e buf p rest h =
    let ((len, pos), r, q) = >>=-eq-ok (decode_varint buf) _ h in
    ground (arith, decode_varint_shrinks buf len pos r, length-drop len pos)

pub read_delimited-ne-out_of_fuel :
    (e : CodecError) (buf : Bytes) → e ≢ out_of_fuel → read_delimited e buf ≢ err out_of_fuel
unfolding read_delimited
read_delimited-ne-out_of_fuel e buf h =
    >>=-ne-err (decode_varint buf) _ out_of_fuel (decode_varint-ne-out_of_fuel buf)
      (λ (len, pos). ground arith)

pub skip_unknown_shrinks :
    (buf : Bytes) (wire_type : ℕ) (rest : Bytes)
    → skip_unknown buf wire_type ≡ ok rest
    → length rest < length buf
unfolding skip_unknown
skip_unknown_shrinks buf wire_type rest h = elim (Result-cases (decode_varint buf)) [
  | inl ((value, pos), e) ↦ elim (Result-cases (read_delimited truncated_field buf)) [
    | inl ((skipped, left), f) ↦ ground (
      arith,
      decode_varint_shrinks buf value pos e,
      read_delimited_shrinks truncated_field buf skipped left f,
    )
    | inr (x, f) ↦ ground (arith, decode_varint_shrinks buf value pos e)
  ]
  | inr (x, e) ↦ elim (Result-cases (read_delimited truncated_field buf)) [
    | inl ((skipped, left), f) ↦
        ground (arith, read_delimited_shrinks truncated_field buf skipped left f)
    | inr (y, f) ↦ ground arith
  ]
]

pub skip_unknown-ne-out_of_fuel :
    (buf : Bytes) (wire_type : ℕ) → skip_unknown buf wire_type ≢ err out_of_fuel
unfolding skip_unknown
skip_unknown-ne-out_of_fuel buf wire_type = ground (
  arith,
  decode_varint-ne-out_of_fuel buf,
  read_delimited-ne-out_of_fuel truncated_field buf (λ e. cc e),
)
