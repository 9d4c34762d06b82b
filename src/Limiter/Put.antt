-- ===== src/Limiter/Put.antt =====
-- `Limiter.put`: the batch is put, and the limiters stay in order.
use mathlib.Core.Path.{subst}
use mathlib.Core.List.{Perm, append_assoc}
use mathlib.Core.List.Perm
use aiokpl.Common.{
  ℕ, ◌+◌, ◌≡◌, refl, sym, ap, ◌∙◌, inl, inr, true, ◌||◌, Bool-cases, Option, none, some, List, [],
  ◌∷◌, ◌++◌, length, map, All,
}
use aiokpl.Common.Eq.{nat_Eq, option_Eq}
use aiokpl.Common.Dict
use aiokpl.Common.Dict.{Dict}
use aiokpl.Common.Result.{ok}
use aiokpl.Batch.{AggregatedBatch}
use aiokpl.Reducer.Sort.{InOrder}
use aiokpl.TokenBucket.{new_bucket}
use aiokpl.Limiter.Drain.{due, batches, drain-Drained}
use aiokpl.Limiter.{
  Pending, ShardLimiter, new_shard_limiter, enqueue, Limiter, LimiterConfig, Dispatched, expires,
  admits, dispatch, start_drain, limiter_of, put,
}

-- The batch of a call.
abbrev pub batch_of : Dispatched → AggregatedBatch
batch_of (expires batch) = batch
batch_of (admits batch) = batch

pub batch_of-dispatch :
    (admitted expired : List AggregatedBatch)
    → map batch_of (dispatch admitted expired) ≡ expired ++ admitted
batch_of-dispatch [] [] = refl
batch_of-dispatch (b ∷ admitted) [] = ap (λ l. b ∷ l) (batch_of-dispatch admitted [])
batch_of-dispatch admitted (b ∷ expired) = ap (λ l. b ∷ l) (batch_of-dispatch admitted expired)

-- A shard limiter with its two streams and its queue in order.
abbrev pub IsReady : ShardLimiter → Type 0
IsReady s = (length s.bucket ≡ 2) × InOrder due s.queue

abbrev pub AllReady : Limiter → Type 0
AllReady l = All (λ p. IsReady p.1) l.shards

-- The batches that wait in a limiter, if there is one.
abbrev pub waiting_in : Option ShardLimiter → List AggregatedBatch
waiting_in none = []
waiting_in (some s) = batches s.queue

abbrev pub waiting : Option ℕ → Limiter → List AggregatedBatch
waiting shard l = waiting_in (Dict.get shard l.shards)

get-IsReady :
    (shard : Option ℕ) (d : Dict (Option ℕ) ShardLimiter) (s : ShardLimiter)
    → All (λ p. IsReady p.1) d
    → Dict.get shard d ≡ some s
    → IsReady s
unfolding Dict.get
get-IsReady shard [] s h e = absurd (cc e)
get-IsReady shard ((j, t) ∷ d) s h e = elim (Bool-cases (option_Eq.equal j shard)) [
  | inl same ↦
      subst (λ (o : Option ShardLimiter). elim o [ some u ↦ IsReady u | none ↦ Unit ])
        (rw same at e) h.0
  | inr other ↦ get-IsReady shard d s h.1 (rw other at e)
]

pub put-IsReady :
    (shard : Option ℕ) (s : ShardLimiter) (d : Dict (Option ℕ) ShardLimiter)
    → IsReady s
    → All (λ p. IsReady p.1) d
    → All (λ p. IsReady p.1) (Dict.put shard s d)
unfolding Dict.put
put-IsReady shard s [] k h = (k, tt)
put-IsReady shard s ((j, t) ∷ d) k h = elim (Bool-cases (option_Eq.equal j shard)) [
  | inl same ↦ rw same (k, h.1)
  | inr other ↦ rw other (h.0, put-IsReady shard s d k h.1)
]

-- Inside the context manager the drain task is started, or is there, and the shards stay.
pub start_drain-ok :
    (l : Limiter)
    → l.entered ≡ true
    → (l' : Limiter) × (start_drain l ≡ ok l') × (l'.shards ≡ l.shards) × (l'.entered ≡ true)
unfolding start_drain
start_drain-ok l e = elim (Bool-cases (l.drain_started || l.closed)) [
  | inl there ↦ (l, rw there refl, refl, e)
  | inr absent ↦ (
    record l { drain_scope = some l.spawned; drain_started = true; spawned = l.spawned + 1 },
    rw (absent, e) refl,
    refl,
    e,
  )
]

-- What a put of `batch` gives: the batches that are dispatched and those that wait for its shard are
-- those that waited, and `batch`; and every shard limiter is ready again.
pub record Put (batch : AggregatedBatch) (l : Limiter) (r : List Dispatched × Limiter × ℕ)
    : Type 0 where
  pub ready : AllReady r.1
  pub inside : r.1.entered ≡ true
  pub kept :
      Perm
        (map batch_of r.0 ++ waiting batch.predicted_shard r.1)
        (batch ∷ waiting batch.predicted_shard l)

waiting_own :
    (shard : Option ℕ) (s : ShardLimiter) (d : Dict (Option ℕ) ShardLimiter) (l : Limiter)
    → l.shards ≡ Dict.put shard s d
    → waiting shard l ≡ batches s.queue
waiting_own shard s d l e =
    ap (λ (c : Dict (Option ℕ) ShardLimiter). waiting_in (Dict.get shard c)) e
    ∙ (rw (Dict.get-put shard shard s d) (rw ((option_Eq.equal_iff shard shard).1 refl) refl))

-- The batches through a put: the queue with the new one, without the expired, and without the
-- admitted.
dispatched_kept :
    (p : Pending) (admitted expired left : List AggregatedBatch) (queue added old : List Pending)
    (before : List AggregatedBatch)
    → admitted ++ left ≡ batches queue
    → Perm (expired ++ batches queue) (batches added)
    → Perm added (p ∷ old)
    → batches old ≡ before
    → Perm (map batch_of (dispatch admitted expired) ++ left) (p.batch ∷ before)
dispatched_kept p admitted expired left queue added old before front kept adds same =
    rw (batch_of-dispatch admitted expired, append_assoc expired admitted left, front, ← same)
      (Perm.trans kept (Perm.map (λ p. p.batch) adds))

module _ (queue_add : List Pending → Pending → List Pending)
    (queue_of : List Pending → List Pending) where
  pub limiter_of-IsReady :
      (cfg : LimiterConfig) (clock : ℕ → ℕ) (reads : ℕ) (shard : Option ℕ) (l : Limiter)
      (found : Option ShardLimiter)
      → AllReady l
      → Dict.get shard l.shards ≡ found
      → IsReady (limiter_of queue_add queue_of cfg clock reads found).0
        × (batches (limiter_of queue_add queue_of cfg clock reads found).0.queue ≡ waiting_in found)
  unfolding limiter_of new_shard_limiter new_bucket
  limiter_of-IsReady cfg clock reads shard l (some s) h e = (get-IsReady shard l.shards s h e, refl)
  limiter_of-IsReady cfg clock reads shard l none h e = ((refl, tt), refl)

  -- Inside the context manager a put always returns, if the queue type keeps its order when it is
  -- added to and sorts what it is filled with. The batches that it dispatches and those that then wait
  -- for the shard are the batches that waited and the new one, each once; every shard limiter keeps its
  -- two streams and a queue in order of deadline.
  pub put-Put :
      ((q : List Pending) (p : Pending)
        → InOrder due q
        → Perm (queue_add q p) (p ∷ q) × InOrder due (queue_add q p))
      → ((q : List Pending) → Perm (queue_of q) q × InOrder due (queue_of q))
      → (cfg : LimiterConfig) (clock : ℕ → ℕ) (reads : ℕ) (batch : AggregatedBatch) (l : Limiter)
      → l.entered ≡ true
      → AllReady l
      → (r : List Dispatched × Limiter × ℕ) × (put queue_add queue_of cfg clock reads batch l
          ≡ ok r)
        × Put batch l r
  unfolding put enqueue
  put-Put adds sorts cfg clock reads batch l inside h =
      let shard = batch.predicted_shard in
      let found = Dict.get shard l.shards in
      let made = limiter_of queue_add queue_of cfg clock reads found in
      let ((two, ordered), before) = limiter_of-IsReady cfg clock reads shard l found h refl in
      let p : Pending = record { batch = batch; expires_at = clock made.1 + cfg.expiration } in
      let added = adds made.0.queue p ordered in
      let s1 : ShardLimiter = record made.0 { queue = queue_add made.0.queue p } in
      let (r, e, d) = drain-Drained queue_add queue_of sorts clock (made.1 + 1) s1 two added.1 in
      let (l', f, same, inside') =
        start_drain-ok (record l { shards = Dict.put shard r.2 l.shards }) inside in
      (
        (dispatch r.0 r.1, l', r.3),
        rw (e, f) refl,
        record {
          ready = rw same (put-IsReady shard r.2 l.shards (d.streams, d.waits_in_order) h);
          inside = inside';
          kept =
              subst (λ w. Perm (map batch_of (dispatch r.0 r.1) ++ w) (batch ∷ waiting shard l))
                (sym (waiting_own shard r.2 l.shards l' same))
                (dispatched_kept p r.0 r.1 (batches r.2.queue) d.queue (queue_add made.0.queue p)
                  made.0.queue (waiting shard l) d.front d.kept added.0 before);
        },
      )
