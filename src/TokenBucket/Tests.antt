-- ===== src/TokenBucket/Tests.antt =====
-- Runs of a bucket with a records stream and a bytes stream, and its theorems on them.
use aiokpl.Common.{ℕ, ◌-◌, ◌*◌, ◌≡◌, refl, ◌⊎◌, true, false, List, [], ◌∷◌, arith}
use aiokpl.Common.Result.{ok, err}
use aiokpl.TokenBucket.{
  Amount, tokens, below, Stream, wrong_length, negative_amount, new_bucket, debit_all, try_take,
  available,
}
use aiokpl.TokenBucket.Take.{grow_all, affords, OnlyGrown, try_take_atomic}
use aiokpl.TokenBucket.Budget.{AllWithin, take_each, zeros, take_each-AllWithin}

-- Two records and 100 bytes a second, full, at time 0.
abbrev bucket : List Stream
bucket =
    record { rate = 2; max_tokens = 2_000_000; level = 2_000_000; last = 0 }
    ∷ record { rate = 100; max_tokens = 100_000_000; level = 100_000_000; last = 0 }
    ∷ []

bucket_new : new_bucket ((2, 2_000_000) ∷ (100, 100_000_000) ∷ []) true 0 ≡ bucket
unfolding new_bucket
bucket_new = refl

-- The clock stands for two readings, and then goes on half a second a reading.
abbrev clock : ℕ → ℕ
clock reads = (reads - 1) * 500_000

one_record : ℕ → List Amount
one_record bytes = tokens 1_000_000 ∷ tokens (bytes * 1_000_000) ∷ []

take_fits :
    try_take clock 0 (one_record 30) bucket
    ≡ ok (
      true,
      record { rate = 2; max_tokens = 2_000_000; level = 1_000_000; last = 0 }
          ∷ record { rate = 100; max_tokens = 100_000_000; level = 70_000_000; last = 0 }
          ∷ [],
      2,
    )
unfolding try_take one_record
take_fits = refl

-- The bytes do not fit, so no record token is taken either.
take_refused : try_take clock 0 (one_record 101) bucket ≡ ok (false, bucket, 2)
unfolding try_take one_record
take_refused = refl

take_negative : try_take clock 0 (below 0 ∷ tokens 1 ∷ []) bucket ≡ err negative_amount
unfolding try_take
take_negative = refl

take_wrong_length : try_take clock 0 (tokens 1 ∷ []) bucket ≡ err wrong_length
unfolding try_take
take_wrong_length = refl

available_grows :
    available clock 3 0 (record { rate = 2; max_tokens = 2_000_000; level = 0; last = 0 } ∷ [])
    ≡ ok (
      2_000_000,
      record { rate = 2; max_tokens = 2_000_000; level = 2_000_000; last = 1_000_000 } ∷ [],
      4,
    )
unfolding available
available_grows = refl

try_take_atomic_example :
    (false ≡ affords (one_record 101) (grow_all clock 0 bucket))
    × (((false ≡ true) × (bucket ≡ debit_all (one_record 101) (grow_all clock 0 bucket)))
        ⊎ ((false ≡ false) × OnlyGrown clock bucket bucket))
try_take_atomic_example =
    try_take_atomic clock 0 (one_record 101) bucket bucket false 2 take_refused

abbrev requests : List (List Amount)
requests = one_record 30 ∷ one_record 80 ∷ one_record 60 ∷ []

take_each-AllWithin_example :
    AllWithin bucket
      (take_each clock 0 requests bucket (zeros bucket)).0
      (take_each clock 0 requests bucket (zeros bucket)).1
take_each-AllWithin_example = take_each-AllWithin clock 0 requests bucket (omega arith)
