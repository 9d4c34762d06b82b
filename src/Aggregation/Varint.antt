-- ===== src/Aggregation/Varint.antt =====
-- `_encode_varint` and `_decode_varint` of aiokpl/aggregation.py. An `out` that a function of the
-- source extends is an argument, and the extended buffer is the result.
pub mod RoundTrip
pub mod Shrink
use mathlib.Core.Logic.{dite, dif_pos, dif_neg}
use mathlib.Core.WellFounded.{Acc, Acc-prop}
use native.Mathlib.Bridge.{le_prop}
use aiokpl.Common.{
  ℕ, ◌+◌, ◌*◌, ◌/◌, ◌%◌, ◌^◌, ◌≤◌, ◌<◌, ◌≡◌, ap, ◌∙◌, [], ◌∷◌, ◌++◌, arith, dec_lt, leb, ◌==◌,
  if◌then◌else◌,
}
use aiokpl.Common.Order.{lt_wf}
use aiokpl.Common.Result.{Result, ok, err}
use aiokpl.Aggregation.Types.{Bytes, CodecError, truncated_varint, varint_too_long}

-- The `while`: `value & 0x7F` is `value % 2 ^ 7`, and the flag `0x80` is a bit above it.
encode_varint_acc : (value : ℕ) → Acc ◌<◌ value → Bytes → Bytes
encode_varint_acc value (Acc.intro _ smaller) out =
    dite (dec_lt 0x7F value)
      (λ h.
        encode_varint_acc (value / 2 ^ 7) (smaller (value / 2 ^ 7) (omega arith))
          (out ++ (value % 2 ^ 7 + 0x80) ∷ []))
      (λ _. out ++ (value % 2 ^ 7) ∷ [])

unfoldable pub encode_varint : ℕ → Bytes → Bytes
unfolding encode_varint_acc lt_wf dec_lt
encode_varint value out = encode_varint_acc value (lt_wf.apply value) out

-- The `while True`: `result |= (b & 0x7F) << shift` sets bits at and above `shift`, and all bits
-- of `result` are below it, so it is a sum.
decode_varint_loop : Bytes → ℕ → ℕ → Result CodecError (ℕ × Bytes)
decode_varint_loop [] result shift = err truncated_varint
decode_varint_loop (b ∷ rest) result shift =
    let result' = result + b % 2 ^ 7 * 2 ^ shift in
    let more = decode_varint_loop rest result' (shift + 7) in
    if b / 2 ^ 7 % 2 == 0
    then ok (result', rest)
    else if leb 64 (shift + 7)
    then err varint_too_long
    else more

-- `_decode_varint(buf, pos)`, at the bytes of `buf` from `pos` on.
unfoldable pub decode_varint : Bytes → Result CodecError (ℕ × Bytes)
unfolding decode_varint_loop
decode_varint buf = decode_varint_loop buf 0 0

acc_small :
    (value : ℕ) (w : Acc ◌<◌ value) (out : Bytes)
    → value ≤ 0x7F
    → encode_varint_acc value w out ≡ out ++ value ∷ []
unfolding encode_varint_acc
acc_small value (Acc.intro _ smaller) out h =
    dif_neg (dec_lt 0x7F value) (λ k. omega arith) _ _ ∙ ap (λ (c : ℕ). out ++ c ∷ []) (omega arith)

acc_large :
    (value : ℕ) (w : Acc ◌<◌ value) (out : Bytes)
    → 0x7F < value
    → (v : Acc ◌<◌ (value / 2 ^ 7)) × (encode_varint_acc value w out
        ≡ encode_varint_acc (value / 2 ^ 7) v (out ++ (value % 2 ^ 7 + 0x80) ∷ []))
unfolding encode_varint_acc
acc_large value (Acc.intro _ smaller) out h =
    (smaller (value / 2 ^ 7) (omega arith), dif_pos (dec_lt 0x7F value) le_prop h _ _)

-- The two ways a round of the loop goes, with the proof of termination out of sight.
pub encode_varint_small :
    (value : ℕ) (out : Bytes) → value ≤ 0x7F → encode_varint value out ≡ out ++ value ∷ []
unfolding encode_varint
encode_varint_small value out h = acc_small value (lt_wf.apply value) out h

pub encode_varint_large :
    (value : ℕ) (out : Bytes)
    → 0x7F < value
    → encode_varint value out ≡ encode_varint (value / 2 ^ 7) (out ++ (value % 2 ^ 7 + 0x80) ∷ [])
unfolding encode_varint
encode_varint_large value out h =
    let (v, e) = acc_large value (lt_wf.apply value) out h in
    e
    ∙ ap (λ w. encode_varint_acc (value / 2 ^ 7) w (out ++ (value % 2 ^ 7 + 0x80) ∷ []))
        (Acc-prop v (lt_wf.apply (value / 2 ^ 7)))
