-- ===== src/Limiter/Tests.antt =====
-- A run of a shard limiter that has tokens for one of two batches, and its theorem there.
use mathlib.Core.List.{Perm, perm_append_comm}
use mathlib.Core.List.Perm
use aiokpl.Common.{some, ℕ, ◌≡◌, refl, none, List, [], ◌∷◌, ◌++◌}
use aiokpl.Common.Result.{ok, ◌>>=◌}
use aiokpl.Batch.{AggregatedBatch}
use aiokpl.Reducer.Sort.{sorted, sorted-perm, sorted-InOrder}
use aiokpl.TokenBucket.{grow, any_negative, check, debit_all, try_take}
use aiokpl.Limiter.{Pending, ShardLimiter, split_expired, admit, drain}
use aiokpl.Limiter.{Limiter, LimiterConfig, Dispatched, new_limiter, enter, put}
use aiokpl.Reducer.Sort.{InOrder}
use aiokpl.Limiter.Put.{Put, put-Put}
use aiokpl.Limiter.Drain.{due, Drained, drain-Drained}

abbrev test_add : List Pending → Pending → List Pending
test_add q p = sorted due (q ++ p ∷ [])

abbrev clock : ℕ → ℕ
clock reads = 10

abbrev sized : ℕ → AggregatedBatch
sized n = record {
  predicted_shard = none;
  items = [];
  size_estimate = n;
  pk_set = [];
  ehk_set = [];
}

-- The first batch is expired; there are tokens for the second and not for the third.
abbrev limiter : ShardLimiter
limiter = record {
  bucket =
      record { rate = 1; max_tokens = 5000000; level = 5000000; last = 10 }
      ∷ record { rate = 1; max_tokens = 70000000; level = 70000000; last = 10 }
      ∷ [];
  queue =
      record { batch = sized 1; expires_at = 10 }
      ∷ record { batch = sized 60; expires_at = 11 }
      ∷ record { batch = sized 20; expires_at = 11 }
      ∷ [];
}

drain-limiter :
    (drain test_add (λ q. q) clock 0 limiter >>= λ r. ok (r.0 ++ r.1))
    ≡ ok (sized 60 ∷ sized 1 ∷ [])
unfolding drain split_expired admit try_take check any_negative debit_all grow
drain-limiter = refl

drain-Drained_example :
    (r : List AggregatedBatch × List AggregatedBatch × ShardLimiter × ℕ) × (drain test_add
        (sorted due)
        clock
        0
        limiter
      ≡ ok r)
    × Drained (clock 0) limiter.queue r
drain-Drained_example =
    drain-Drained test_add (sorted due) (λ q. (sorted-perm due q, sorted-InOrder due q)) clock 0
      limiter refl ((refl, (refl, tt)), ((refl, tt), (tt, tt)))

-- Adding at the end and sorting is in order, and keeps the batches.
test_add_sorts :
    (q : List Pending) (p : Pending)
    → InOrder due q
    → Perm (test_add q p) (p ∷ q) × InOrder due (test_add q p)
test_add_sorts q p h = (
  Perm.trans (sorted-perm due (q ++ p ∷ [])) (perm_append_comm q (p ∷ [])),
  sorted-InOrder due (q ++ p ∷ []),
)

abbrev limiter_config : LimiterConfig
limiter_config = record { records_per_sec = 1000; bytes_per_sec = 1048576; expiration = 30 }

abbrev two_shards : Limiter
two_shards = record (enter new_limiter) { shards = (some 3, limiter) ∷ [] }

put-Put_example :
    (r : List Dispatched × Limiter × ℕ) × (put test_add
        (sorted due)
        limiter_config
        clock
        0
        (sized 7)
        two_shards
      ≡ ok r)
    × Put (sized 7) two_shards r
put-Put_example =
    put-Put test_add (sorted due) test_add_sorts (λ q. (sorted-perm due q, sorted-InOrder due q))
      limiter_config clock 0 (sized 7) two_shards refl
      ((refl, ((refl, (refl, tt)), ((refl, tt), (tt, tt)))), tt)
