-- ===== src/Aggregation/Fields/RoundTrip.antt =====
-- Reading back a field that was written.
use mathlib.Core.List.{append_assoc}
use aiokpl.Common.{
  ℕ, ◌+◌, ◌*◌, ◌^◌, ◌<◌, ◌≡◌, ◌∙◌, ap, [], ◌++◌, arith, le→ltb, length, length-append, take-append,
  drop-append,
}
use aiokpl.Common.Result.{ok}
use aiokpl.Aggregation.Types.{Bytes, CodecError}
use aiokpl.Aggregation.Varint.{encode_varint, decode_varint}
use aiokpl.Aggregation.Varint.RoundTrip.{
  encode_varint-append, encode_varint_pos, decode_varint-encode_varint,
}
use aiokpl.Aggregation.Fields.{
  encode_tag, encode_length_delimited, encode_uint64_field, read_delimited,
}

-- Both writers append to `out`.
pub encode_length_delimited_parts :
    (f : ℕ) (p out : Bytes)
    → encode_length_delimited f p out
      ≡ out ++ encode_varint (f * 8 + 2) [] ++ encode_varint (length p) [] ++ p
unfolding encode_length_delimited encode_tag
encode_length_delimited_parts f p out = rw (
  encode_varint-append (length p) (encode_varint (f * 8 + 2) out),
  encode_varint-append (f * 8 + 2) out,
)

pub encode_uint64_field_parts :
    (f v : ℕ) (out : Bytes)
    → encode_uint64_field f v out ≡ out ++ encode_varint (f * 8 + 0) [] ++ encode_varint v []
unfolding encode_uint64_field encode_tag
encode_uint64_field_parts f v out =
    encode_varint-append v (encode_varint (f * 8 + 0) out)
    ∙ ap (λ t. t ++ encode_varint v []) (encode_varint-append (f * 8 + 0) out)

pub encode_length_delimited-append :
    (f : ℕ) (p out : Bytes)
    → encode_length_delimited f p out ≡ out ++ encode_length_delimited f p []
encode_length_delimited-append f p out =
    rw (encode_length_delimited_parts f p out, encode_length_delimited_parts f p [])
      (simp append_assoc)

pub encode_uint64_field-append :
    (f v : ℕ) (out : Bytes) → encode_uint64_field f v out ≡ out ++ encode_uint64_field f v []
encode_uint64_field-append f v out =
    rw (encode_uint64_field_parts f v out, encode_uint64_field_parts f v []) (simp append_assoc)

-- The tag in front of a field, and the field behind it.
pub decode_tag_delimited :
    (f : ℕ) (p rest : Bytes)
    → f < 1024
    → decode_varint (encode_length_delimited f p [] ++ rest)
      ≡ ok (f * 8 + 2, encode_varint (length p) [] ++ p ++ rest)
decode_tag_delimited f p rest h = rw (encode_length_delimited_parts f p []) (
    simp append_assoc (
      decode_varint-encode_varint (f * 8 + 2) (encode_varint (length p) [] ++ (p ++ rest))
        (omega arith)))

pub decode_tag_uint64 :
    (f v : ℕ) (rest : Bytes)
    → f < 1024
    → decode_varint (encode_uint64_field f v [] ++ rest)
      ≡ ok (f * 8 + 0, encode_varint v [] ++ rest)
decode_tag_uint64 f v rest h = rw (encode_uint64_field_parts f v []) (
    simp append_assoc
      (decode_varint-encode_varint (f * 8 + 0) (encode_varint v [] ++ rest) (omega arith)))

pub read_delimited-encode :
    (e : CodecError) (p rest : Bytes)
    → length p < 2 ^ 70
    → read_delimited e (encode_varint (length p) [] ++ p ++ rest) ≡ ok (p, rest)
unfolding read_delimited
read_delimited-encode e p rest h =
    simp (append_assoc, decode_varint-encode_varint (length p) (p ++ rest) h)
      (rw (
        le→ltb (length (p ++ rest)) (length p) (omega (arith, length-append p rest)),
        take-append p rest,
        drop-append p rest,
      ))

pub encode_length_delimited_bounds :
    (f : ℕ) (p : Bytes) → length p < length (encode_length_delimited f p [])
encode_length_delimited_bounds f p = rw (encode_length_delimited_parts f p []) (
    omega (
      arith,
      length-append (encode_varint (f * 8 + 2) [] ++ encode_varint (length p) []) p,
      length-append (encode_varint (f * 8 + 2) []) (encode_varint (length p) []),
      encode_varint_pos (f * 8 + 2),
    ))

pub encode_uint64_field_pos : (f v : ℕ) → 0 < length (encode_uint64_field f v [])
encode_uint64_field_pos f v = rw (encode_uint64_field_parts f v []) (
    omega (
      arith,
      length-append (encode_varint (f * 8 + 0) []) (encode_varint v []),
      encode_varint_pos v,
    ))
