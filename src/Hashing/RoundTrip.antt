-- ===== src/Hashing/RoundTrip.antt =====
-- What the two hash keys can be, and that a decimal text is parsed to its number.
use mathlib.Core.List.{foldl}
use mathlib.Core.Logic.{dif_pos, dif_neg}
use mathlib.Core.WellFounded.{Acc, Acc-prop}
use native.Mathlib.Bridge.{le_prop}
use native.Mathlib.Nat.{pow-suc, mul_assoc}
use aiokpl.Common.{
  ℕ, zero, suc, ◌+◌, ◌-◌, ◌*◌, ◌/◌, ◌%◌, ◌^◌, ◌<◌, ◌≤◌, ◌≡◌, ◌↔◌, refl, ap, ◌∙◌, ◌⊎◌, inl, inr,
  true, false, not, ◌||◌, List, [], ◌∷◌, ◌++◌, arith, dec_lt, ltb, ◌==◌, length, length-append, All,
  All-append, Bool-cases,
}
use aiokpl.Common.Order.{lt_wf}
use aiokpl.Common.Result.{ok, ◌>>◌, raise_if}
use aiokpl.Aggregation.Types.{Bytes, Str}
use aiokpl.Aggregation.Utf8.{utf8_encode}
use aiokpl.Hashing.{
  max_str_digits, int_of_digits, out_of_uint128_range, uint128_max, from_bytes, md5_hash_key,
  is_digit, all_of, digits_value, parse_explicit_hash_key, decimal_acc, decimal,
}

foldl-append :
    {A B : Type 0} (f : B → A → B) (b : B) (xs ys : List A)
    → foldl f b (xs ++ ys) ≡ foldl f (foldl f b xs) ys
foldl-append f b [] ys = refl
foldl-append f b (x ∷ xs) ys = foldl-append f (f b x) xs ys

-- A fold over bytes stays below a power for each byte.
from_bytes_bound :
    (bs : Bytes) (acc m : ℕ)
    → All (λ b. b < 256) bs
    → acc < m
    → foldl (λ value b. value * 2 ^ 8 + b) acc bs < 256 ^ length bs * m
from_bytes_bound [] acc m h k = omega arith
from_bytes_bound (b ∷ bs) acc m h k =
    let rest = from_bytes_bound bs (acc * 2 ^ 8 + b) (256 * m) h.1 (omega (arith, h.0)) in
    rw (pow-suc 256 (length bs), mul_assoc (256 ^ length bs) 256 m) rest

-- The digits of a text.
abbrev pub AreDigits : Str → Type 0
AreDigits s = All (λ c. (48 ≤ c) × (c ≤ 57)) s

all_digits : (s : Str) → AreDigits s → all_of is_digit s ≡ true
all_digits [] h = refl
all_digits (c ∷ s) h = ground (arith, h.0.0, h.0.1, all_digits s h.1)

digits_all : (s : Str) → all_of is_digit s ≡ true → AreDigits s
digits_all [] h = tt
digits_all (c ∷ s) h = ground (arith, digits_all s)

all_ascii : (s : Str) → AreDigits s → all_of (λ c. ltb c 128) s ≡ true
all_ascii [] h = refl
all_ascii (c ∷ s) h = ground (arith, h.0.0, h.0.1, all_ascii s h.1)

-- A text of digits is parsed by its value alone.
parse-digits :
    (s : Str)
    → 0 < length s
    → AreDigits s
    → length s ≤ max_str_digits
    → parse_explicit_hash_key s
      ≡ (raise_if (ltb uint128_max (digits_value s)) out_of_uint128_range >> ok (digits_value s))
unfolding parse_explicit_hash_key int_of_digits
parse-digits s h k l =
    let full : (length s == 0) ≡ false = ground (arith, h) in
    let short : ltb max_str_digits (length s) ≡ false = ground (arith, l) in
    rw (full, all_ascii s k, all_digits s k, short) refl

parse-digits_eq_ok :
    (s : Str) (v : ℕ)
    → (raise_if (ltb uint128_max (digits_value s)) out_of_uint128_range >> ok (digits_value s))
      ≡ ok v
    → (digits_value s ≡ v) × (v < 2 ^ 128)
parse-digits_eq_ok s v e = elim (Bool-cases (ltb uint128_max (digits_value s))) [
  | inl f ↦ absurd (cc (rw f at e))
  | inr f ↦ let same : digits_value s ≡ v = cc (rw f at e) in (same, ground (arith, same))
]

parse-is_digits :
    (s : Str) (v : ℕ)
    → parse_explicit_hash_key s ≡ ok v
    → (0 < length s) × AreDigits s × (length s ≤ max_str_digits)
unfolding parse_explicit_hash_key int_of_digits
parse-is_digits s v e =
    elim (Bool-cases
      (length s == 0 || (not (all_of (λ c. ltb c 128) s) || not (all_of is_digit s)))) [
        | inl f ↦ absurd (cc (rw f at e))
        | inr f ↦ elim (Bool-cases (ltb max_str_digits (length s))) [
          | inl g ↦ absurd (cc (rw (f, g) at e))
          | inr g ↦ (ground arith, digits_all s (ground arith), ground (arith, g))
        ]
      ]

-- A text is accepted if and only if it is not empty, has digits only, 4300 at most, and its value is
-- below `2 ^ 128`: that is the result. Leading zeros are accepted, and count as digits.
pub parse_explicit_hash_key_iff :
    (s : Str) (v : ℕ)
    → (parse_explicit_hash_key s ≡ ok v) ↔ (
        (0 < length s)
        × AreDigits s
        × (length s ≤ max_str_digits)
        × (digits_value s ≡ v)
        × (v < 2 ^ 128))
parse_explicit_hash_key_iff s v = (
  λ e.
      let (h, k, l) = parse-is_digits s v e in
      let (same, small) = parse-digits_eq_ok s v (rw (parse-digits s h k l) at e) in
      (h, k, l, same, small),
  λ (h, k, l, same, small).
      let fits : ltb uint128_max (digits_value s) ≡ false = ground (arith, same, small) in
      rw (parse-digits s h k l, fits, same) refl,
)

value-snoc : (s : Str) (c : ℕ) → digits_value (s ++ c ∷ []) ≡ digits_value s * 10 + (c - 48)
unfolding digits_value
value-snoc s c = foldl-append (λ value c. value * 10 + (c - 48)) 0 s (c ∷ [])

acc_small : (n : ℕ) (w : Acc ◌<◌ n) → n ≤ 9 → decimal_acc n w ≡ (48 + n) ∷ []
unfolding decimal_acc
acc_small n (Acc.intro _ smaller) h = dif_neg (dec_lt 9 n) (λ k. omega arith) _ _

acc_large :
    (n : ℕ) (w : Acc ◌<◌ n)
    → 9 < n
    → (v : Acc ◌<◌ (n / 10)) × (decimal_acc n w ≡ decimal_acc (n / 10) v ++ (48 + n % 10) ∷ [])
unfolding decimal_acc
acc_large n (Acc.intro _ smaller) h =
    (smaller (n / 10) (omega arith), dif_pos (dec_lt 9 n) le_prop h _ _)

ltb_cases : (m n : ℕ) → (m < n) ⊎ (n ≤ m)
ltb_cases m n = elim (Bool-cases (ltb m n)) [
  | inl e ↦ inl (ground arith)
  | inr e ↦ inr (ground arith)
]

-- One digit, and more than one, with the proof of termination out of sight.
decimal_small : (n : ℕ) → n ≤ 9 → decimal n ≡ (48 + n) ∷ []
unfolding decimal
decimal_small n h = acc_small n (lt_wf.apply n) h

decimal_large : (n : ℕ) → 9 < n → decimal n ≡ decimal (n / 10) ++ (48 + n % 10) ∷ []
unfolding decimal
decimal_large n h =
    let (v, e) = acc_large n (lt_wf.apply n) h in
    e ∙ ap (λ w. decimal_acc (n / 10) w ++ (48 + n % 10) ∷ []) (Acc-prop v (lt_wf.apply (n / 10)))

-- What the text of a number is: digits, with the number as their value.
abbrev IsText : ℕ → Str → Type 0
IsText n s = (0 < length s) × AreDigits s × (digits_value s ≡ n)

IsText-snoc : (n : ℕ) (s : Str) → IsText (n / 10) s → IsText n (s ++ (48 + n % 10) ∷ [])
IsText-snoc n s (full, digits, value) = (
  omega (arith, length-append s ((48 + n % 10) ∷ [])),
  All-append (λ c. (48 ≤ c) × (c ≤ 57)) s ((48 + n % 10) ∷ []) digits
      ((omega arith, omega arith), tt),
  value-snoc s (48 + n % 10) ∙ omega (arith, value),
)

digit-IsText : (n : ℕ) → n ≤ 9 → IsText n ((48 + n) ∷ [])
unfolding digits_value
digit-IsText n h = (omega arith, ((omega arith, omega arith), tt), omega arith)

decimal-IsText : (n : ℕ) → Acc ◌<◌ n → IsText n (decimal n)
decimal-IsText n (Acc.intro _ smaller) = elim (ltb_cases 9 n) [
  | inl h ↦
      rw (decimal_large n h) (
        IsText-snoc n (decimal (n / 10)) (decimal-IsText (n / 10) (smaller (n / 10) (omega arith))))
  | inr h ↦ rw (decimal_small n h) (digit-IsText n h)
]

-- A number below a power of ten has few digits.
length-decimal : (k n : ℕ) → n < 10 ^ k → length (decimal n) ≤ k + 1
length-decimal zero n h = rw (decimal_small n (omega (arith, h))) (omega arith)
length-decimal (suc k) n h = elim (ltb_cases 9 n) [
  | inl large ↦
      let small : n / 10 < 10 ^ k = omega (arith, rw (pow-suc 10 k) at h) in
      rw (decimal_large n large) (
        omega (
          arith,
          length-decimal k (n / 10) small,
          length-append (decimal (n / 10)) ((48 + n % 10) ∷ []),
        ))
  | inr small ↦ rw (decimal_small n small) (omega arith)
]

-- The decimal text of a number below `2 ^ 128` is parsed to the number.
pub parse_explicit_hash_key-decimal :
    (n : ℕ) → n < 2 ^ 128 → parse_explicit_hash_key (decimal n) ≡ ok n
parse_explicit_hash_key-decimal n h =
    let (full, digits, value) = decimal-IsText n (lt_wf.apply n) in
    let short = length-decimal 39 n (omega (arith, h)) in
    (parse_explicit_hash_key_iff (decimal n) n).1 (full, digits, omega (arith, short), value, h)

-- The hash key of a partition key is below `2 ^ 128`, if the digest has 16 bytes.
pub md5_hash_key_bound :
    (md5 : Bytes → Bytes)
    → ((b : Bytes) → (length (md5 b) ≡ 16) × All (λ x. x < 256) (md5 b))
    → (partition_key : Str) → md5_hash_key md5 partition_key < 2 ^ 128
unfolding md5_hash_key from_bytes
md5_hash_key_bound md5 h partition_key =
    let d = h (utf8_encode partition_key) in
    rw d.0 at (from_bytes_bound (md5 (utf8_encode partition_key)) 0 1 d.1 (omega arith))
