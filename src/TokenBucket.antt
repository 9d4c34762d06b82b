-- ===== src/TokenBucket.antt =====
-- aiokpl/token_bucket.py: `TokenBucket` and its streams. Tokens and times are whole numbers of a
-- fixed small unit: with time in microseconds and rates in tokens a second, a level counts
-- millionths of a token, and `rate * (now - last)` is exact. The clock is a function of how many
-- times it was read, and each operation takes and returns that count. Where a clock goes back the source
-- has a growth below zero, which it ignores; the difference here is then zero.
pub mod Take
pub mod Grow
pub mod Budget
mod Tests
use aiokpl.Common.{
  ℕ, zero, suc, not, ◌||◌, ◌+◌, ◌-◌, ◌*◌, min, Bool, true, false, Option, none, some, List, [], ◌∷◌,
  map, ltb, ◌==◌, if◌then◌else◌, length, get_elem?,
}
use aiokpl.Common.Result.{Result, ok, err, ◌>>=◌, ◌>>◌, raise_if}

-- A number that may be negative, as the caller of `try_take` may pass one: `below n` is -(n + 1).
pub data Amount : Type 0 where
  tokens : ℕ → Amount
  below : ℕ → Amount

pub record Stream : Type 0 where
  pub rate : ℕ
  pub max_tokens : ℕ
  pub level : ℕ
  pub last : ℕ

-- `ValueError`: the amounts do not fit the streams, or one is negative. `IndexError` of a list.
pub data BucketError : Type 0 where
  wrong_length negative_amount no_such_stream : BucketError

-- `TokenBucket(streams, initial_full=initial_full)` at the clock's time `now`.
unfoldable pub new_bucket : List (ℕ × ℕ) → Bool → ℕ → List Stream
new_bucket [] initial_full now = []
new_bucket ((rate, max_tokens) ∷ streams) initial_full now =
    record {
      rate = rate;
      max_tokens = max_tokens;
      level = if initial_full then max_tokens else 0;
      last = now;
    }
    ∷ new_bucket streams initial_full now

-- `_grow`, at the clock's time `now`.
unfoldable pub grow : ℕ → Stream → Stream
grow now s =
    let growth = s.rate * (now - s.last) in
    if ltb 0 growth then record s { level = min s.max_tokens (s.level + growth); last = now } else s

-- `available(idx)`: the tokens of a stream after growth.
unfoldable pub available : (ℕ → ℕ) → ℕ → ℕ → List Stream → Result BucketError (ℕ × List Stream × ℕ)
unfolding grow
available clock reads idx [] = err no_such_stream
available clock reads zero (s ∷ ss) =
    let s' = grow (clock reads) s in ok (s'.level, s' ∷ ss, reads + 1)
available clock reads (suc idx) (s ∷ ss) = do
  (n, ss', reads') ← available clock reads idx ss
  ok (n, s ∷ ss', reads')

abbrev pub is_negative : Amount → Bool
is_negative (tokens n) = false
is_negative (below n) = true

unfoldable pub any_negative : List Amount → Bool
any_negative [] = false
any_negative (a ∷ amounts) = is_negative a || any_negative amounts

-- `a > s.tokens`
abbrev pub exceeds : Amount → ℕ → Bool
exceeds (tokens n) level = ltb level n
exceeds (below n) level = false

-- `s.tokens -= a`
abbrev pub debit : Amount → Stream → Stream
debit (tokens n) s = record s { level = s.level - n }
debit (below n) s = record s { level = s.level + suc n }

-- The first loop: every stream up to the first that lacks tokens grows.
unfoldable pub check : (ℕ → ℕ) → ℕ → List Amount → List Stream → Bool × List Stream × ℕ
unfolding grow
check clock reads (a ∷ amounts) (s ∷ ss) =
    let s' = grow (clock reads) s in
    let (fits, ss', reads') = check clock (reads + 1) amounts ss in
    if exceeds a s'.level then (false, s' ∷ ss, reads + 1) else (fits, s' ∷ ss', reads')
check clock reads amounts ss = (true, ss, reads)

-- The second loop.
unfoldable pub debit_all : List Amount → List Stream → List Stream
debit_all (a ∷ amounts) (s ∷ ss) = debit a s ∷ debit_all amounts ss
debit_all amounts ss = ss

unfoldable pub try_take :
    (ℕ → ℕ) → ℕ → List Amount → List Stream → Result BucketError (Bool × List Stream × ℕ)
unfolding check any_negative debit_all
try_take clock reads amounts ss = do
  raise_if (not (length amounts == length ss)) wrong_length
  raise_if (any_negative amounts) negative_amount
  let (fits, ss', reads') = check clock reads amounts ss
  ok (if fits then (true, debit_all amounts ss', reads') else (false, ss', reads'))
