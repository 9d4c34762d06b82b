-- ===== src/Aggregation/Varint/Shrink.antt =====
-- `_decode_varint` consumes at least one byte of the buffer, and reads a number of 70 bits at most.
use aiokpl.Common.{ℕ, ◌+◌, ◌*◌, ◌%◌, ◌^◌, ◌<◌, ◌≡◌, ◌≢◌, [], ◌∷◌, arith, length}
use aiokpl.Common.Result.{ok, err}
use aiokpl.Aggregation.Types.{Bytes, out_of_fuel}
use aiokpl.Aggregation.Varint.{decode_varint, decode_varint_loop}

loop_shrinks :
    (buf : Bytes) (result shift v : ℕ) (rest : Bytes)
    → decode_varint_loop buf result shift ≡ ok (v, rest)
    → length rest < length buf
unfolding decode_varint_loop
loop_shrinks [] result shift v rest h = ground arith
loop_shrinks (b ∷ buf) result shift v rest h =
    ground (arith, loop_shrinks buf (result + b % 2 ^ 7 * 2 ^ shift) (shift + 7) v rest)

pub decode_varint_shrinks :
    (buf : Bytes) (v : ℕ) (rest : Bytes)
    → decode_varint buf ≡ ok (v, rest)
    → length rest < length buf
unfolding decode_varint
decode_varint_shrinks buf v rest h = loop_shrinks buf 0 0 v rest h

loop-ne-out_of_fuel :
    (buf : Bytes) (result shift : ℕ) → decode_varint_loop buf result shift ≢ err out_of_fuel
unfolding decode_varint_loop
loop-ne-out_of_fuel [] result shift = ground arith
loop-ne-out_of_fuel (b ∷ buf) result shift =
    ground (arith, loop-ne-out_of_fuel buf (result + b % 2 ^ 7 * 2 ^ shift) (shift + 7))

pub decode_varint-ne-out_of_fuel : (buf : Bytes) → decode_varint buf ≢ err out_of_fuel
unfolding decode_varint
decode_varint-ne-out_of_fuel buf = loop-ne-out_of_fuel buf 0 0
