-- ===== src/Limiter/Contents.antt =====
-- What a limiter holds in all, by any measure of its batches, through a put, a round of the drain
-- task and a flush.
use mathlib.Core.List.{Perm}
use mathlib.Core.List.Perm
use aiokpl.Common.{
  ℕ, ◌+◌, ◌≡◌, refl, sym, ap, ◌∙◌, true, Option, none, some, List, [], ◌∷◌, ◌++◌, arith, map, All,
}
use aiokpl.Common.Total.{total, total-append, total-Perm, total-map, measured, in_all, in_all-put}
use aiokpl.Common.Eq.{nat_Eq, option_Eq}
use aiokpl.Common.Dict
use aiokpl.Common.Dict.{Dict}
use aiokpl.Common.Result.{ok}
use aiokpl.Batch.{AggregatedBatch}
use aiokpl.Reducer.Sort.{InOrder}
use aiokpl.Limiter.Drain.{due, batches, drain-Drained, Drained, split_expired-kept}
use aiokpl.Limiter.Put.{
  batch_of, batch_of-dispatch, IsReady, AllReady, waiting_in, limiter_of-IsReady, start_drain-ok,
  put-IsReady,
}
use aiokpl.Limiter.{
  Pending, ShardLimiter, enqueue, Limiter, LimiterConfig, Dispatched, dispatch, limiter_of,
  drain_force, split_expired, put, drain_each, drain_round, force_each, flush,
}

module _ (m : AggregatedBatch → ℕ) where
  abbrev pub of_shard : ShardLimiter → ℕ
  of_shard s = total m (batches s.queue)

  abbrev pub of_limiter : Limiter → ℕ
  of_limiter l = in_all of_shard l.shards

  abbrev pub of_call : Dispatched → ℕ
  of_call c = m (batch_of c)

  of_dispatch :
      (admitted expired : List AggregatedBatch)
      → total of_call (dispatch admitted expired) ≡ total m expired + total m admitted
  of_dispatch admitted expired =
      sym (total-map m batch_of (dispatch admitted expired))
      ∙ ap (total m) (batch_of-dispatch admitted expired)
      ∙ total-append m expired admitted

  of_Drained :
      {now : ℕ} (ps : List Pending)
      (r : List AggregatedBatch × List AggregatedBatch × ShardLimiter × ℕ)
      → Drained now ps r
      → total of_call (dispatch r.0 r.1) + of_shard r.2 ≡ total m (batches ps)
  of_Drained ps r d = omega (
    arith,
    of_dispatch r.0 r.1,
    ap (total m) d.front,
    total-append m r.0 (batches r.2.queue),
    total-Perm m d.kept,
    total-append m r.1 (batches d.queue),
  )

  -- What an operation leaves: the limiter is entered and ready, and holds with what is dispatched
  -- what it should.
  pub record Leaves (before : ℕ) (r : List Dispatched × Limiter × ℕ) : Type 0 where
    pub inside : r.1.entered ≡ true
    pub ready : AllReady r.1
    pub kept : total of_call r.0 + of_limiter r.1 ≡ before

  of_waiting : (o : Option ShardLimiter) → total m (waiting_in o) ≡ measured of_shard o
  of_waiting none = refl
  of_waiting (some s) = refl

  -- `drain_force` loses nothing.
  of_forced :
      (now : ℕ) (s : ShardLimiter)
      → total of_call (dispatch (drain_force now s).0 (drain_force now s).1) ≡ of_shard s
  unfolding drain_force
  of_forced now s =
      let split = split_expired now s.queue in
      omega (
        arith,
        of_dispatch (map (λ p. p.batch) split.1) split.0,
        total-Perm m (split_expired-kept now s.queue),
        total-append m split.0 (batches split.1),
      )

  pub record Forced (d : Dict (Option ℕ) ShardLimiter)
      (r : List Dispatched × Dict (Option ℕ) ShardLimiter × ℕ) : Type 0 where
    pub ready : All (λ p. IsReady p.1) r.1
    pub kept : total of_call r.0 + in_all of_shard r.1 ≡ in_all of_shard d

  force_each-Forced :
      (clock : ℕ → ℕ) (reads : ℕ) (d : Dict (Option ℕ) ShardLimiter)
      → All (λ p. IsReady p.1) d
      → Forced d (force_each clock reads d)
  unfolding force_each drain_force
  force_each-Forced clock reads [] h = record { ready = tt; kept = refl }
  force_each-Forced clock reads ((shard, s) ∷ d) h =
      let rest = force_each-Forced clock (reads + 1) d h.1 in
      let forced = drain_force (clock reads) s in
      record {
        ready = ((h.0.0, tt), rest.ready);
        kept = omega (
          arith,
          rest.kept,
          of_forced (clock reads) s,
          total-append of_call (dispatch forced.0 forced.1) (force_each clock (reads + 1) d).0,
        );
      }

  pub flush-Leaves :
      (clock : ℕ → ℕ) (reads : ℕ) (l : Limiter)
      → l.entered ≡ true
      → AllReady l
      → Leaves (of_limiter l) (flush clock reads l)
  unfolding flush
  flush-Leaves clock reads l e h =
      let forced = force_each-Forced clock reads l.shards h in
      record { inside = e; ready = forced.ready; kept = forced.kept }

  module _ (queue_add : List Pending → Pending → List Pending)
      (queue_of : List Pending → List Pending)
      (adds : (q : List Pending) (p : Pending)
        → InOrder due q
        → Perm (queue_add q p) (p ∷ q) × InOrder due (queue_add q p))
      (sorts : (q : List Pending) → Perm (queue_of q) q × InOrder due (queue_of q)) where
    pub put-Leaves :
        (cfg : LimiterConfig) (clock : ℕ → ℕ) (reads : ℕ) (batch : AggregatedBatch) (l : Limiter)
        → l.entered ≡ true
        → AllReady l
        → (r : List Dispatched × Limiter × ℕ) × (put queue_add queue_of cfg clock reads batch l
            ≡ ok r)
          × Leaves (m batch + of_limiter l) r
    unfolding put enqueue
    put-Leaves cfg clock reads batch l inside h =
        let shard = batch.predicted_shard in
        let found = Dict.get shard l.shards in
        let made = limiter_of queue_add queue_of cfg clock reads found in
        let ((two, ordered), before) =
          limiter_of-IsReady queue_add queue_of cfg clock reads shard l found h refl in
        let p : Pending = record { batch = batch; expires_at = clock made.1 + cfg.expiration } in
        let added = adds made.0.queue p ordered in
        let s1 : ShardLimiter = record made.0 { queue = queue_add made.0.queue p } in
        let (r, e, d) = drain-Drained queue_add queue_of sorts clock (made.1 + 1) s1 two added.1 in
        let (l', f, same, inside') =
          start_drain-ok (record l { shards = Dict.put shard r.2 l.shards }) inside in
        (
          (dispatch r.0 r.1, l', r.3),
          rw (e, f) refl,
          record {
            inside = inside';
            ready = rw same (put-IsReady shard r.2 l.shards (d.streams, d.waits_in_order) h);
            kept = omega (
              arith,
              ap (in_all of_shard) same,
              in_all-put of_shard shard r.2 l.shards,
              of_Drained s1.queue r d,
              total-Perm m (Perm.map (λ q. q.batch) added.0),
              ap (total m) before,
              of_waiting found,
            );
          },
        )

    pub record Rounds (d : Dict (Option ℕ) ShardLimiter) (clock : ℕ → ℕ) (reads : ℕ) : Type 0 where
      pub calls : List Dispatched
      pub shards : Dict (Option ℕ) ShardLimiter
      pub count : ℕ
      pub returns : drain_each queue_add queue_of clock reads d ≡ ok (calls, shards, count)
      pub ready : All (λ p. IsReady p.1) shards
      pub kept : total of_call calls + in_all of_shard shards ≡ in_all of_shard d

    drain_each-Rounds :
        (clock : ℕ → ℕ) (reads : ℕ) (d : Dict (Option ℕ) ShardLimiter)
        → All (λ p. IsReady p.1) d
        → Rounds d clock reads
    unfolding drain_each
    drain_each-Rounds clock reads [] h = record {
      calls = [];
      shards = [];
      count = reads;
      returns = refl;
      ready = tt;
      kept = refl;
    }
    drain_each-Rounds clock reads ((shard, s) ∷ d) h =
        let (r, e, drained) = drain-Drained queue_add queue_of sorts clock reads s h.0.0 h.0.1 in
        let rest = drain_each-Rounds clock r.3 d h.1 in
        record {
          calls = dispatch r.0 r.1 ++ rest.calls;
          shards = (shard, r.2) ∷ rest.shards;
          count = rest.count;
          returns = rw (e, rest.returns) refl;
          ready = ((drained.streams, drained.waits_in_order), rest.ready);
          kept = omega (
            arith,
            rest.kept,
            of_Drained s.queue r drained,
            total-append of_call (dispatch r.0 r.1) rest.calls,
          );
        }

    -- A round of the drain task returns, and loses nothing.
    pub drain_round-Leaves :
        (clock : ℕ → ℕ) (reads : ℕ) (l : Limiter)
        → l.entered ≡ true
        → AllReady l
        → (r : List Dispatched × Limiter × ℕ) × (drain_round queue_add queue_of clock reads l
            ≡ ok r)
          × Leaves (of_limiter l) r
    unfolding drain_round
    drain_round-Leaves clock reads l e h =
        let round = drain_each-Rounds clock reads l.shards h in
        (
          (round.calls, record l { shards = round.shards }, round.count),
          rw round.returns refl,
          record { inside = e; ready = round.ready; kept = round.kept },
        )
