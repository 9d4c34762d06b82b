-- ===== src/Aggregation/Utf8/RoundTrip.antt =====
-- Decoding what was encoded gives the text back; the decoder never runs out of rounds.
use mathlib.Core.List.{foldl, append_assoc, append-nil}
use native.Mathlib.Decide.{dec_lt}
use aiokpl.Common.{ℕ, ◌≤◌, ◌<◌, ◌≡◌, ◌≢◌, ◌∙◌, sym, ap, [], ◌∷◌, ◌++◌, arith, length, flat_map}
use aiokpl.Common.Loop.{loop-flat_map, loop-ne-out_of_fuel}
use aiokpl.Common.Result.{ok, err}
use aiokpl.Aggregation.Types.{Bytes, Str, out_of_fuel}
use aiokpl.Aggregation.Utf8.{encode_char, utf8_encode, decode_char, utf8_decode, IsScalar, IsText}

module _ (text : Str) (c : ℕ) (rest : Bytes) where
  decode_encode_one :
      c < 0x80 → decode_char text (encode_char c ++ rest) ≡ ok (text ++ c ∷ [], rest)
  unfolding decode_char encode_char
  decode_encode_one h = ground arith

  decode_encode_two :
      0x80 ≤ c → c < 0x800 → decode_char text (encode_char c ++ rest) ≡ ok (text ++ c ∷ [], rest)
  unfolding decode_char encode_char
  decode_encode_two h k = ground arith

  decode_encode_three :
      0x800 ≤ c
      → c < 0x10000
      → IsScalar c
      → decode_char text (encode_char c ++ rest) ≡ ok (text ++ c ∷ [], rest)
  unfolding decode_char encode_char
  decode_encode_three h k s = ground arith

  decode_encode_four :
      0x10000 ≤ c
      → c < 0x110000
      → decode_char text (encode_char c ++ rest) ≡ ok (text ++ c ∷ [], rest)
  unfolding decode_char encode_char
  decode_encode_four h k = ground arith

  decode_char-encode_char :
      IsScalar c → decode_char text (encode_char c ++ rest) ≡ ok (text ++ c ∷ [], rest)
  decode_char-encode_char s = elim (dec_lt c 0x80) [
    | yes p ↦ decode_encode_one p
    | no p ↦ elim (dec_lt c 0x800) [
      | yes q ↦ decode_encode_two (omega arith) q
      | no q ↦ elim (dec_lt c 0x10000) [
        | yes r ↦ decode_encode_three (omega arith) r s
        | no r ↦ decode_encode_four (omega arith) (omega arith)
      ]
    ]
  ]

encode_char_pos : (c : ℕ) → 0 < length (encode_char c)
unfolding encode_char
encode_char_pos c = ground arith

foldl-snoc : (text s : Str) → foldl (λ t c. t ++ c ∷ []) text s ≡ text ++ s
foldl-snoc text [] = sym (append-nil text)
foldl-snoc text (c ∷ s) = foldl-snoc (text ++ c ∷ []) s ∙ append_assoc text (c ∷ []) s

-- Decoding the encoding of a text gives the text, for every text without surrogates.
pub utf8_decode-utf8_encode : (s : Str) → IsText s → utf8_decode (utf8_encode s) ≡ ok s
unfolding utf8_decode utf8_encode
utf8_decode-utf8_encode s h =
    loop-flat_map decode_char out_of_fuel encode_char (λ t c. t ++ c ∷ []) IsScalar
      decode_char-encode_char encode_char_pos s (length (flat_map encode_char s)) [] h (omega arith)
    ∙ ap ok (foldl-snoc [] s)

decode_char_fresh : (text : Str) (buf : Bytes) → decode_char text buf ≢ err out_of_fuel
unfolding decode_char
decode_char_fresh text [] = ground arith
decode_char_fresh text (a ∷ []) = ground arith
decode_char_fresh text (a ∷ b ∷ []) = ground arith
decode_char_fresh text (a ∷ b ∷ c ∷ []) = ground arith
decode_char_fresh text (a ∷ b ∷ c ∷ d ∷ buf) = ground arith

decode_char_shrinks :
    (text t : Str) (a : ℕ) (buf rest : Bytes)
    → decode_char text (a ∷ buf) ≡ ok (t, rest)
    → length rest ≤ length buf
unfolding decode_char
decode_char_shrinks text t a [] rest h = ground arith
decode_char_shrinks text t a (b ∷ []) rest h = ground arith
decode_char_shrinks text t a (b ∷ c ∷ []) rest h = ground arith
decode_char_shrinks text t a (b ∷ c ∷ d ∷ buf) rest h = ground arith

pub utf8_decode-ne-out_of_fuel : (buf : Bytes) → utf8_decode buf ≢ err out_of_fuel
unfolding utf8_decode
utf8_decode-ne-out_of_fuel buf =
    loop-ne-out_of_fuel decode_char out_of_fuel (λ t a rest. decode_char_fresh t (a ∷ rest))
      decode_char_shrinks (length buf) [] buf (omega arith)
