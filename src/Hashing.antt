-- ===== src/Hashing.antt =====
-- aiokpl/hashing.py: the hash key of a partition key and of an explicit hash key, and the decimal
-- text of a number, which aiokpl/aggregator.py sends as an explicit hash key. The MD5 digest of
-- `hashlib` is a parameter.
pub mod RoundTrip
mod Tests
use mathlib.Core.List.{foldl}
use mathlib.Core.Logic.{dite}
use mathlib.Core.WellFounded.{Acc}
use aiokpl.Common.{
  ℕ, ◌+◌, ◌-◌, ◌*◌, ◌/◌, ◌%◌, ◌^◌, ◌<◌, Bool, true, false, not, ◌&&◌, ◌||◌, List, [], ◌∷◌, ◌++◌,
  arith, dec_lt, leb, ltb, ◌==◌, if◌then◌else◌, length,
}
use aiokpl.Common.Order.{lt_wf}
use aiokpl.Common.Result.{Result, ok, err, ◌>>=◌, ◌>>◌, raise_if}
use aiokpl.Aggregation.Types.{Bytes, Str}
use aiokpl.Aggregation.Utf8.{utf8_encode}

-- The two `ValueError`s of `parse_explicit_hash_key`, and that of `int`.
pub data HashError : Type 0 where
  not_canonical_decimal out_of_uint128_range too_many_digits : HashError

abbrev pub uint128_max : ℕ
uint128_max = 2 ^ 128 - 1

-- `int.from_bytes(digest, "big")`
unfoldable pub from_bytes : Bytes → ℕ
from_bytes digest = foldl (λ value b. value * 2 ^ 8 + b) 0 digest

unfoldable pub md5_hash_key : (Bytes → Bytes) → Str → ℕ
unfolding from_bytes
md5_hash_key md5 partition_key = from_bytes (md5 (utf8_encode partition_key))

-- `"0" <= c <= "9"`
abbrev pub is_digit : ℕ → Bool
is_digit c = leb 48 c && leb c 57

-- `all(...)`
abbrev pub all_of : (ℕ → Bool) → Str → Bool
all_of p [] = true
all_of p (c ∷ s) = p c && all_of p s

-- The value of a text of digits.
unfoldable pub digits_value : Str → ℕ
digits_value s = foldl (λ value c. value * 10 + (c - 48)) 0 s

-- `sys.get_int_max_str_digits()`, as the interpreter starts with it.
abbrev pub max_str_digits : ℕ
max_str_digits = 4300

-- `int(s)` on a text of digits, leading zeros included.
unfoldable pub int_of_digits : Str → Result HashError ℕ
unfolding digits_value
int_of_digits s = if ltb max_str_digits (length s) then err too_many_digits else ok (digits_value s)

unfoldable pub parse_explicit_hash_key : Str → Result HashError ℕ
unfolding int_of_digits
parse_explicit_hash_key s =
    if length s == 0 || (not (all_of (λ c. ltb c 128) s) || not (all_of is_digit s))
    then err not_canonical_decimal
    else int_of_digits s >>= λ value.
        raise_if (ltb uint128_max value) out_of_uint128_range >> ok value

decimal_acc : (n : ℕ) → Acc ◌<◌ n → Str
decimal_acc n (Acc.intro _ smaller) =
    dite (dec_lt 9 n)
      (λ h. decimal_acc (n / 10) (smaller (n / 10) (omega arith)) ++ (48 + n % 10) ∷ [])
      (λ _. (48 + n) ∷ [])

-- `str(n)`
unfoldable pub decimal : ℕ → Str
unfolding decimal_acc lt_wf dec_lt
decimal n = decimal_acc n (lt_wf.apply n)
