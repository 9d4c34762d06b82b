-- ===== src/Aggregation/Varint/RoundTrip.antt =====
-- What `_decode_varint` reads back of what `_encode_varint` wrote.
use mathlib.Core.List.{append_assoc}
use mathlib.Core.WellFounded
use native.Mathlib.Decide.{dec_le}
use native.Mathlib.Nat.{pow-suc}
use native.Mathlib.Numerals.{towards_suc}
use aiokpl.Common.{
  ℕ, zero, suc, ◌+◌, ◌*◌, ◌/◌, ◌%◌, ◌^◌, ◌<◌, ◌≡◌, sym, ap, ◌∙◌, [], ◌∷◌, ◌++◌, arith, length,
}
use aiokpl.Common.Order.{lt_wf}
use aiokpl.Common.Result.{ok}
use aiokpl.Aggregation.Types.{Bytes}
use aiokpl.Aggregation.Varint.{
  encode_varint, encode_varint_small, encode_varint_large, decode_varint, decode_varint_loop,
}

-- What is in `out` stays, and the encoding is appended.
pub encode_varint-append : (v : ℕ) (out : Bytes) → encode_varint v out ≡ out ++ encode_varint v []
encode_varint-append v out =
    WellFounded.induction lt_wf
      {C = λ v. (out : Bytes) → encode_varint v out ≡ out ++ encode_varint v []} v
      (λ v ih out. elim (dec_le v 0x7F) [
        | yes p ↦ rw (encode_varint_small v out p, encode_varint_small v [] p)
        | no p ↦
            encode_varint_large v out (omega arith)
            ∙ ih (v / 2 ^ 7) (omega arith) (out ++ (v % 2 ^ 7 + 0x80) ∷ [])
            ∙ append_assoc out ((v % 2 ^ 7 + 0x80) ∷ []) (encode_varint (v / 2 ^ 7) [])
            ∙ ap (◌++◌ out) (
                sym (
                  encode_varint_large v [] (omega arith)
                  ∙ ih (v / 2 ^ 7) (omega arith) ((v % 2 ^ 7 + 0x80) ∷ [])))
      ])
      out

pub encode_varint_cons :
    (v : ℕ) → 0x7F < v → encode_varint v [] ≡ (v % 2 ^ 7 + 0x80) ∷ encode_varint (v / 2 ^ 7) []
encode_varint_cons v h =
    encode_varint_large v [] h ∙ encode_varint-append (v / 2 ^ 7) ((v % 2 ^ 7 + 0x80) ∷ [])

pub encode_varint_pos : (v : ℕ) → 0 < length (encode_varint v [])
encode_varint_pos v = elim (dec_le v 0x7F) [
  | yes p ↦ rw (encode_varint_small v [] p) (omega arith)
  | no p ↦ rw (encode_varint_cons v (omega arith)) (omega arith)
]

decode_varint_loop_more :
    (b : ℕ) (buf : Bytes) (result shift : ℕ)
    → b / 2 ^ 7 % 2 ≡ 1
    → shift + 7 < 64
    → decode_varint_loop (b ∷ buf) result shift
      ≡ decode_varint_loop buf (result + b % 2 ^ 7 * 2 ^ shift) (shift + 7)
unfolding decode_varint_loop
decode_varint_loop_more b buf result shift h k = ground arith

-- The two groups of bits of `v`, put together at `shift`.
join_bits :
    (r s v : ℕ) → r + (v % 2 ^ 7 + 0x80) % 2 ^ 7 * 2 ^ s + v / 2 ^ 7 * 2 ^ (s + 7) ≡ r + v * 2 ^ s
join_bits r s v =
    let shifted : 2 ^ (s + 7) ≡ 128 * 2 ^ s = simp towards_suc (omega arith) in
    let whole : v / 2 ^ 7 * 128 + v % 2 ^ 7 ≡ v = omega arith in
    let low : (v % 2 ^ 7 + 0x80) % 2 ^ 7 ≡ v % 2 ^ 7 = omega arith in
    rw (shifted, low) (omega (arith, ap (λ (t : ℕ). t * 2 ^ s) whole))

-- `k` more bytes after this one are allowed at `shift`.
decode_varint_loop-encode :
    (k shift result v : ℕ) (rest : Bytes)
    → shift + 7 * suc k ≡ 70
    → v < 128 ^ suc k
    → decode_varint_loop (encode_varint v [] ++ rest) result shift
      ≡ ok (result + v * 2 ^ shift, rest)
unfolding decode_varint_loop
decode_varint_loop-encode zero shift result v rest e h =
    rw (encode_varint_small v [] (omega arith)) (ground arith)
decode_varint_loop-encode (suc k) shift result v rest e h = elim (dec_le v 0x7F) [
  | yes p ↦ rw (encode_varint_small v [] p) (ground arith)
  | no p ↦ rw (encode_varint_cons v (omega arith)) (
      decode_varint_loop_more (v % 2 ^ 7 + 0x80) (encode_varint (v / 2 ^ 7) [] ++ rest) result shift
        (omega arith) (omega arith)
      ∙ decode_varint_loop-encode k (shift + 7) (result + (v % 2 ^ 7 + 0x80) % 2 ^ 7 * 2 ^ shift)
          (v / 2 ^ 7) rest (omega arith) (omega (arith, pow-suc 128 (suc k)))
      ∙ ap (λ (t : ℕ). ok (t, rest)) (join_bits result shift v))
]

-- Reading back a number that was written, with whatever follows it, gives the number and what
-- follows, for every number below 2 ^ 70, so for every uint64.
pub decode_varint-encode_varint :
    (v : ℕ) (rest : Bytes) → v < 2 ^ 70 → decode_varint (encode_varint v [] ++ rest) ≡ ok (v, rest)
unfolding decode_varint
decode_varint-encode_varint v rest h =
    decode_varint_loop-encode 9 0 0 v rest (omega arith) (omega arith)
    ∙ ap (λ (t : ℕ). ok (t, rest)) (omega arith)
