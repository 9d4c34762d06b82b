-- ===== src/Limiter.antt =====
-- aiokpl/limiter.py: `ShardLimiter`, a queue in order of deadline before a token bucket of records
-- and bytes, and `Limiter`, one for each shard; metrics are left out, as with `metrics=None`. The queue belongs to the package `sortedcontainers`: adding to it and filling it are
-- parameters. As in the token bucket, a level counts millionths of a token and the clock's times are
-- microseconds; each operation takes and returns the count of readings.
pub mod Drain
pub mod Put
pub mod Contents
mod Tests
use aiokpl.Common.{
  ℕ, ◌+◌, ◌*◌, Bool, true, false, ◌||◌, Option, none, some, List, [], ◌∷◌, ◌++◌, leb, ◌==◌,
  if◌then◌else◌, length, map,
}
use aiokpl.Common.Eq.{Eq, nat_Eq, option_Eq}
use aiokpl.Common.Dict
use aiokpl.Common.Dict.{Dict}
use aiokpl.Common.Result.{Result, ok, err, ◌>>=◌}
use aiokpl.Batch.{AggregatedBatch, earliest}
use aiokpl.TokenBucket.{Stream, Amount, tokens, BucketError, new_bucket, try_take}

pub record Pending : Type 0 where
  pub batch : AggregatedBatch
  pub expires_at : ℕ

pub record ShardLimiter : Type 0 where
  pub bucket : List Stream
  pub queue : List Pending

abbrev pub unit : ℕ
unit = 1000000

-- `ShardLimiter.__init__`, at the clock's time `now`.
unfoldable pub new_shard_limiter : ℕ → ℕ → ℕ → ShardLimiter
unfolding new_bucket
new_shard_limiter records_per_sec bytes_per_sec now = record {
  bucket =
      new_bucket
        ((records_per_sec, records_per_sec * unit) ∷ (bytes_per_sec, bytes_per_sec * unit) ∷ [])
        true now;
  queue = [];
}

-- The first loop of `drain` and of `drain_force`: what is expired at `now`, and the rest.
unfoldable pub split_expired : ℕ → List Pending → List AggregatedBatch × List Pending
split_expired now [] = ([], [])
split_expired now (p ∷ ps) =
    let (expired, keep) = split_expired now ps in
    if leb p.expires_at now then (p.batch ∷ expired, keep) else (expired, p ∷ keep)

-- `try_take([1, head.batch.size])`
abbrev pub cost : Pending → List Amount
cost p = tokens unit ∷ tokens (p.batch.size_estimate * unit) ∷ []

-- What the second loop of `drain` returns and leaves.
pub record Admission : Type 0 where
  pub admitted : List AggregatedBatch
  pub waiting : List Pending
  pub bucket : List Stream
  pub reads : ℕ

-- `admitted.append(head.batch)`
abbrev pub append_head : Pending → Result BucketError Admission → Result BucketError Admission
append_head p rest = rest >>= λ a. ok (record a { admitted = p.batch ∷ a.admitted })

-- The `while`: the queue from its head.
unfoldable pub admit : (ℕ → ℕ) → ℕ → List Stream → List Pending → Result BucketError Admission
admit clock reads bucket [] =
    ok record { admitted = []; waiting = []; bucket = bucket; reads = reads }
admit clock reads bucket (p ∷ ps) = elim (try_take clock reads (cost p) bucket) [
  | ok (taken, bucket', reads') ↦
      let rest = admit clock reads' bucket' ps in
      if taken
      then append_head p rest
      else ok record { admitted = []; waiting = p ∷ ps; bucket = bucket'; reads = reads' }
  | err e ↦ err e
]

abbrev pub is_empty {ℓ} : {A : Type ℓ} → List A → Bool
is_empty [] = true
is_empty (x ∷ xs) = false

module _ (queue_add : List Pending → Pending → List Pending)
    (queue_of : List Pending → List Pending) where
  -- `enqueue`
  unfoldable pub enqueue : AggregatedBatch → ℕ → ShardLimiter → ShardLimiter
  enqueue batch expires_at s = record s {
    queue = queue_add s.queue (record { batch = batch; expires_at = expires_at });
  }

  -- `drain`: the admitted and the expired batches, the limiter and the count of readings after it.
  unfoldable pub drain :
      (ℕ → ℕ)
      → ℕ
      → ShardLimiter
      → Result BucketError (List AggregatedBatch × List AggregatedBatch × ShardLimiter × ℕ)
  unfolding split_expired admit
  drain clock reads s = do
    let (expired, keep) = split_expired (clock reads) s.queue
    a ← admit clock (reads + 1) s.bucket (if is_empty expired then s.queue else queue_of keep)
    ok (a.admitted, expired, record { bucket = a.bucket; queue = a.waiting }, a.reads)

-- `drain_force`, at the clock's time `now`.
unfoldable pub drain_force :
    ℕ → ShardLimiter → List AggregatedBatch × List AggregatedBatch × ShardLimiter
unfolding split_expired
drain_force now s =
    let (expired, admitted) = split_expired now s.queue in
    (map (λ p. p.batch) admitted, expired, record s { queue = [] })

unfoldable pub pending_count : ShardLimiter → ℕ
pending_count s = length s.queue

-- `Limiter`: the shard limiters by shard, and the drain task. A scope is the number of its task.
pub record Limiter : Type 0 where
  pub shards : Dict (Option ℕ) ShardLimiter
  pub drain_started : Bool
  pub drain_scope : Option ℕ
  pub closed : Bool
  -- `_tg is not None`
  pub entered : Bool
  pub spawned : ℕ
  pub cancelled : List ℕ

pub record LimiterConfig : Type 0 where
  pub records_per_sec : ℕ
  pub bytes_per_sec : ℕ
  pub expiration : ℕ

-- What an operation raises: an error of a bucket, or `RuntimeError` outside the context manager.
pub data LimiterError : Type 0 where
  bucket_error : BucketError → LimiterError
  not_entered : LimiterError

-- A call of `on_expired` or `on_admit`.
pub data Dispatched : Type 0 where
  expires admits : AggregatedBatch → Dispatched

-- `_dispatch`: the expired batches first.
abbrev pub dispatch : List AggregatedBatch → List AggregatedBatch → List Dispatched
dispatch admitted expired = map expires expired ++ map admits admitted

abbrev pub new_limiter : Limiter
new_limiter = record {
  shards = [];
  drain_started = false;
  drain_scope = none;
  closed = false;
  entered = false;
  spawned = 0;
  cancelled = [];
}

-- `__aenter__`
abbrev pub enter : Limiter → Limiter
enter l = record l { entered = true }

abbrev pub or_bucket : {A : Type 0} → Result BucketError A → Result LimiterError A
or_bucket (ok a) = ok a
or_bucket (err e) = err (bucket_error e)

-- The start of the drain task in `put`.
unfoldable pub start_drain : Limiter → Result LimiterError Limiter
start_drain l =
    if l.drain_started || l.closed
    then ok l
    else if l.entered
    then ok
        (record l { drain_scope = some l.spawned; drain_started = true; spawned = l.spawned + 1 })
    else err not_entered

module _ (queue_add : List Pending → Pending → List Pending)
    (queue_of : List Pending → List Pending) where
  -- The limiter of a shard, which is made with the clock's reading if it is new.
  unfoldable pub limiter_of : LimiterConfig → (ℕ → ℕ) → ℕ → Option ShardLimiter → ShardLimiter × ℕ
  unfolding new_shard_limiter
  limiter_of cfg clock reads (some s) = (s, reads)
  limiter_of cfg clock reads none =
      (new_shard_limiter cfg.records_per_sec cfg.bytes_per_sec (clock reads), reads + 1)

  -- `put`: the calls of `_dispatch`, the limiter and the count of readings after it.
  unfoldable pub put :
      LimiterConfig
      → (ℕ → ℕ)
      → ℕ
      → AggregatedBatch
      → Limiter
      → Result LimiterError (List Dispatched × Limiter × ℕ)
  unfolding limiter_of enqueue drain start_drain
  put cfg clock reads batch l = do
    let (s, reads1) = limiter_of cfg clock reads (Dict.get batch.predicted_shard l.shards)
    let s1 = enqueue queue_add queue_of batch (clock reads1 + cfg.expiration) s
    (admitted, expired, s2, reads2) ← or_bucket (drain queue_add queue_of clock (reads1 + 1) s1)
    l' ← start_drain (record l { shards = Dict.put batch.predicted_shard s2 l.shards })
    ok (dispatch admitted expired, l', reads2)

  -- A round of `_drain_loop`, over the limiters.
  unfoldable pub drain_each :
      (ℕ → ℕ)
      → ℕ
      → Dict (Option ℕ) ShardLimiter
      → Result BucketError (List Dispatched × Dict (Option ℕ) ShardLimiter × ℕ)
  unfolding drain
  drain_each clock reads [] = ok ([], [], reads)
  drain_each clock reads ((shard, s) ∷ shards) = do
    (admitted, expired, s', reads1) ← drain queue_add queue_of clock reads s
    (calls, shards', reads2) ← drain_each clock reads1 shards
    ok (dispatch admitted expired ++ calls, (shard, s') ∷ shards', reads2)

  unfoldable pub drain_round :
      (ℕ → ℕ) → ℕ → Limiter → Result BucketError (List Dispatched × Limiter × ℕ)
  unfolding drain_each
  drain_round clock reads l = do
    (calls, shards, reads') ← drain_each clock reads l.shards
    ok (calls, record l { shards = shards }, reads')

-- The limiters in `flush`, one reading of the clock for each.
unfoldable pub force_each :
    (ℕ → ℕ) → ℕ → Dict (Option ℕ) ShardLimiter → List Dispatched × Dict (Option ℕ) ShardLimiter × ℕ
unfolding drain_force
force_each clock reads [] = ([], [], reads)
force_each clock reads ((shard, s) ∷ shards) =
    let (admitted, expired, s') = drain_force (clock reads) s in
    let (calls, shards', reads') = force_each clock (reads + 1) shards in
    (dispatch admitted expired ++ calls, (shard, s') ∷ shards', reads')

-- `flush`
unfoldable pub flush : (ℕ → ℕ) → ℕ → Limiter → List Dispatched × Limiter × ℕ
unfolding force_each
flush clock reads l =
    let (calls, shards, reads') = force_each clock reads l.shards in
    (calls, record l { shards = shards }, reads')

-- `aclose`
unfoldable pub aclose : Limiter → Limiter
aclose l = if l.closed then l else record l {
  closed = true;
  drain_scope = none;
  cancelled = elim l.drain_scope [ some scope ↦ l.cancelled ++ scope ∷ [] | none ↦ l.cancelled ];
}
