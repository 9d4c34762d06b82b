-- ===== src/Hashing/Tests.antt =====
-- Runs of the hash keys, and their theorems at concrete texts.
use mathlib.Core.Logic.{◌↔◌}
use aiokpl.Common.{◌^◌, ◌≤◌, ◌<◌, ◌≡◌, refl, [], ◌∷◌, arith}
use aiokpl.Common.Result.{ok, err}
use aiokpl.Aggregation.Types.{Bytes}
use aiokpl.Hashing.{
  max_str_digits, not_canonical_decimal, from_bytes, md5_hash_key, digits_value,
  parse_explicit_hash_key, decimal,
}
use aiokpl.Hashing.RoundTrip.{
  AreDigits, parse_explicit_hash_key_iff, parse_explicit_hash_key-decimal, md5_hash_key_bound,
}

-- A digest of 16 bytes, whatever the message.
abbrev test_digest : Bytes → Bytes
test_digest b = 1 ∷ 2 ∷ 3 ∷ 4 ∷ 5 ∷ 6 ∷ 7 ∷ 8 ∷ 9 ∷ 10 ∷ 11 ∷ 12 ∷ 13 ∷ 14 ∷ 15 ∷ 255 ∷ []

parse-forty_two : parse_explicit_hash_key (52 ∷ 50 ∷ []) ≡ ok 42
unfolding parse_explicit_hash_key
parse-forty_two = refl

parse-sign : parse_explicit_hash_key (43 ∷ 50 ∷ []) ≡ err not_canonical_decimal
unfolding parse_explicit_hash_key
parse-sign = refl

from_bytes-two : from_bytes (1 ∷ 2 ∷ []) ≡ 258
unfolding from_bytes
from_bytes-two = refl

parse_explicit_hash_key_iff_example : (parse_explicit_hash_key (52 ∷ 50 ∷ []) ≡ ok 42) ↔ (
    (0 < 2)
    × AreDigits (52 ∷ 50 ∷ [])
    × (2 ≤ max_str_digits)
    × (digits_value (52 ∷ 50 ∷ []) ≡ 42)
    × (42 < 2 ^ 128))
parse_explicit_hash_key_iff_example = parse_explicit_hash_key_iff (52 ∷ 50 ∷ []) 42

parse_explicit_hash_key-decimal_example : parse_explicit_hash_key (decimal 1203) ≡ ok 1203
parse_explicit_hash_key-decimal_example = parse_explicit_hash_key-decimal 1203 (omega arith)

md5_hash_key_bound_example : md5_hash_key test_digest (97 ∷ []) < 2 ^ 128
md5_hash_key_bound_example =
    md5_hash_key_bound test_digest
      (λ b. (
        refl,
        (
          omega arith,
          (
            omega arith,
            (
              omega arith,
              (
                omega arith,
                (
                  omega arith,
                  (
                    omega arith,
                    (
                      omega arith,
                      (
                        omega arith,
                        (
                          omega arith,
                          (
                            omega arith,
                            (
                              omega arith,
                              (
                                omega arith,
                                (omega arith, (omega arith, (omega arith, (omega arith, tt)))),
                              ),
                            ),
                          ),
                        ),
                      ),
                    ),
                  ),
                ),
              ),
            ),
          ),
        ),
      ))
      (97 ∷ [])
