-- ===== src/Metrics/Window.antt =====
-- `_Bucket` and `_Accumulator` of aiokpl/metrics.py: the observations of the last seconds, in one
-- bucket for each second. A value is a whole number of a small unit, and so is a time, a millionth
-- of a second; the infinities that a bucket starts with are `none`.
use aiokpl.Common.{ℕ, ◌+◌, ◌/◌, Option, none, some, List, [], ◌∷◌, ltb, ◌==◌, if◌then◌else◌}

-- A bucket, and the tuple that `stats` returns, whose fields it has.
pub record Bucket : Type 0 where
  pub count : ℕ
  pub sum : ℕ
  pub min : Option ℕ
  pub max : Option ℕ

abbrev pub new_bucket : Bucket
new_bucket = record { count = 0; sum = 0; min = none; max = none }

-- `if value < least: least = value`, where `none` is infinity.
abbrev pub lower : Option ℕ → Option ℕ → Option ℕ
lower none least = least
lower (some value) none = some value
lower (some value) (some least) = if ltb value least then some value else some least

-- `if value > most: most = value`, where `none` is minus infinity.
abbrev pub higher : Option ℕ → Option ℕ → Option ℕ
higher none most = most
higher (some value) none = some value
higher (some value) (some most) = if ltb most value then some value else some most

-- What `put` does to the bucket of its second.
unfoldable pub observe : ℕ → Bucket → Bucket
observe value b = record {
  count = b.count + 1;
  sum = b.sum + value;
  min = lower (some value) b.min;
  max = higher (some value) b.max;
}

pub record Accumulator : Type 0 where
  pub window : ℕ
  -- The second and the bucket, the oldest first.
  pub buckets : List (ℕ × Bucket)

abbrev pub new_accumulator : ℕ → Accumulator
new_accumulator window = record { window = window; buckets = [] }

-- `int(self._clock())`
abbrev pub seconds : ℕ → ℕ
seconds now = now / 1000000

-- The loop of `_evict`: `second < now_sec - window + 1`, with the terms moved to the side where
-- they are added.
unfoldable pub evict : ℕ → ℕ → List (ℕ × Bucket) → List (ℕ × Bucket)
evict window now_sec [] = []
evict window now_sec ((second, b) ∷ bs) =
    let rest = evict window now_sec bs in
    if ltb (second + window) (now_sec + 1) then rest else (second, b) ∷ bs

-- The rest of `put`: the last bucket, or a new one behind it.
unfoldable pub put_last : ℕ → ℕ → List (ℕ × Bucket) → List (ℕ × Bucket)
unfolding observe
put_last now_sec value [] = (now_sec, observe value new_bucket) ∷ []
put_last now_sec value ((second, b) ∷ []) =
    if second == now_sec
    then (second, observe value b) ∷ []
    else (second, b) ∷ (now_sec, observe value new_bucket) ∷ []
put_last now_sec value (x ∷ y ∷ bs) = x ∷ put_last now_sec value (y ∷ bs)

-- `put`
unfoldable pub record_value : ℕ → ℕ → Accumulator → Accumulator
unfolding evict put_last
record_value now value a = record a {
  buckets = put_last (seconds now) value (evict a.window (seconds now) a.buckets);
}

-- The loop of `stats`.
unfoldable pub total : Bucket → List (ℕ × Bucket) → Bucket
total sum_up [] = sum_up
total sum_up ((second, b) ∷ bs) =
    total
      record {
        count = sum_up.count + b.count;
        sum = sum_up.sum + b.sum;
        min = lower b.min sum_up.min;
        max = higher b.max sum_up.max;
      }
      bs

-- What `stats` returns of the buckets that are left.
unfoldable pub stats_of : List (ℕ × Bucket) → Option Bucket
unfolding total
stats_of [] = none
stats_of (x ∷ bs) = some (total new_bucket (x ∷ bs))

-- `stats`
unfoldable pub stats : ℕ → Accumulator → Option Bucket × Accumulator
unfolding evict stats_of
stats now a =
    let a' = record a { buckets = evict a.window (seconds now) a.buckets } in
    (stats_of a'.buckets, a')

-- The second behind the last bucket, after the start of the first.
abbrev pub last_second : ℕ → List (ℕ × Bucket) → ℕ
last_second second [] = second
last_second second ((later, b) ∷ bs) = last_second later bs

-- `window_bounds`, in seconds.
unfoldable pub window_bounds : List (ℕ × Bucket) → ℕ × ℕ
window_bounds [] = (0, 0)
window_bounds ((second, b) ∷ bs) = (second, last_second second bs + 1)
