-- ===== src/Aggregation/Utf8.antt =====
-- `str.encode("utf-8")` and `bytes.decode("utf-8")`, which aiokpl/aggregation.py calls on keys and
-- tags: one to four bytes for a code point, and a strict decoder. A text is encoded as if it had no
-- lone surrogate: the `UnicodeEncodeError` that the source raises for one is outside the model.
pub mod RoundTrip
use aiokpl.Common.{
  ℕ, ◌+◌, ◌-◌, ◌*◌, ◌/◌, ◌%◌, ◌≤◌, ◌<◌, ◌⊎◌, Bool, ◌&&◌, ◌||◌, [], ◌∷◌, ◌++◌, ltb, leb, ◌==◌,
  if◌then◌else◌, length, All, flat_map,
}
use aiokpl.Common.Loop.{loop}
use aiokpl.Common.Result.{Result, ok, err}
use aiokpl.Aggregation.Types.{Bytes, Str, CodecError, invalid_utf8, out_of_fuel}

unfoldable pub encode_char : ℕ → Bytes
encode_char c =
    if ltb c 0x80
    then c ∷ []
    else if ltb c 0x800
    then (0xC0 + c / 0x40) ∷ (0x80 + c % 0x40) ∷ []
    else if ltb c 0x10000
    then (0xE0 + c / 0x1000) ∷ (0x80 + c / 0x40 % 0x40) ∷ (0x80 + c % 0x40) ∷ []
    else (0xF0 + c / 0x40000)
      ∷ (0x80 + c / 0x1000 % 0x40)
      ∷ (0x80 + c / 0x40 % 0x40)
      ∷ (0x80 + c % 0x40)
      ∷ []

unfoldable pub utf8_encode : Str → Bytes
unfolding encode_char
utf8_encode s = flat_map encode_char s

is_continuation : ℕ → Bool
is_continuation b = b / 0x40 == 2

-- A character of two, three or four bytes, behind its first byte: `text` has it appended.
decode_two : ℕ → Str → Bytes → Result CodecError (Str × Bytes)
decode_two a text (b ∷ rest) =
    if is_continuation b
    then ok (text ++ ((a - 0xC0) * 0x40 + b % 0x40) ∷ [], rest)
    else err invalid_utf8
decode_two a text _ = err invalid_utf8

decode_three : ℕ → Str → Bytes → Result CodecError (Str × Bytes)
decode_three a text (b ∷ c ∷ rest) =
    let char = (a - 0xE0) * 0x1000 + b % 0x40 * 0x40 + c % 0x40 in
    if is_continuation b
      && is_continuation c
      && leb 0x800 char
      && (ltb char 0xD800 || leb 0xE000 char)
    then ok (text ++ char ∷ [], rest)
    else err invalid_utf8
decode_three a text _ = err invalid_utf8

decode_four : ℕ → Str → Bytes → Result CodecError (Str × Bytes)
decode_four a text (b ∷ c ∷ d ∷ rest) =
    let char = (a - 0xF0) * 0x40000 + b % 0x40 * 0x1000 + c % 0x40 * 0x40 + d % 0x40 in
    if is_continuation b
      && is_continuation c
      && is_continuation d
      && leb 0x10000 char
      && ltb char 0x110000
    then ok (text ++ char ∷ [], rest)
    else err invalid_utf8
decode_four a text _ = err invalid_utf8

unfoldable pub decode_char : Str → Bytes → Result CodecError (Str × Bytes)
unfolding decode_two decode_three decode_four is_continuation
decode_char text [] = err invalid_utf8
decode_char text (a ∷ rest) =
    if ltb a 0x80
    then ok (text ++ a ∷ [], rest)
    else if ltb a 0xC2
    then err invalid_utf8
    else if ltb a 0xE0
    then decode_two a text rest
    else if ltb a 0xF0
    then decode_three a text rest
    else if ltb a 0xF8
    then decode_four a text rest
    else err invalid_utf8

unfoldable pub utf8_decode : Bytes → Result CodecError Str
unfolding decode_char loop
utf8_decode buf = loop decode_char out_of_fuel (length buf) [] buf

-- A code point that is no surrogate. A text holds no other: Python raises on one.
abbrev pub IsScalar : ℕ → Type 0
IsScalar c = (c < 0xD800) ⊎ ((0xE000 ≤ c) × (c < 0x110000))

abbrev pub IsText : Str → Type 0
IsText s = All IsScalar s
