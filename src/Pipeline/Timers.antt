-- ===== src/Pipeline/Timers.antt =====
-- Timers and the drain task keep the balance.
use mathlib.Core.Path.{subst}
use mathlib.Core.List.{Perm}
use aiokpl.Common.{ℕ, ◌≡◌, refl, sym, ◌∙◌, Option, List, [], ◌∷◌, ◌++◌, arith, map}
use aiokpl.Common.Total.{total-map}
use aiokpl.Common.Eq.{nat_Eq}
use aiokpl.Common.Result.{Result, ok, err}
use aiokpl.Aggregation.Types.{Bytes}
use aiokpl.Collector.{put_ops, collector_config}
use aiokpl.Collector.PerShard.{put_laws}
use aiokpl.Reducer.Run.{fire-Conserves, out}
use aiokpl.Reducer
use aiokpl.Reducer.Sort.{InOrder}
use aiokpl.ShardMap.{ShardMapConfig}
use aiokpl.Limiter.{Pending, Limiter, Dispatched}
use aiokpl.Limiter
use aiokpl.TokenBucket.{BucketError}
use aiokpl.Limiter.Drain.{due}
use aiokpl.Limiter.Contents.{of_limiter, drain_round-Leaves, Leaves}
use aiokpl.Aggregator
use aiokpl.Aggregator.Contents.{of_batch, fire-Leaves}
use aiokpl.Config.{Config, aggregator_config}
use aiokpl.Pipeline.Stages.{IsReady, collected-kept}
use aiokpl.Pipeline.Types.{limit, dispatched, Pipeline, PipelineError}
use aiokpl.Pipeline.Contents.{of_record, of_job, of_limits}
use aiokpl.Pipeline.Perform.{collected-IsReady}
use aiokpl.Pipeline.Balance.{by_identity, IsBalanced, one}
use aiokpl.Pipeline.{fire_aggregator, fire_collector, drain_tick}
use aiokpl.Pipeline.Stepped.{Stepped, same-Stepped, with_task}

module _ (cfg : Config) (map_cfg : ShardMapConfig) (threshold : ℕ) (md5 : Bytes → Bytes)
    (clock : ℕ → ℕ) (queue_add : List Pending → Pending → List Pending)
    (queue_of : List Pending → List Pending)
    (adds : (q : List Pending) (p : Pending)
      → InOrder due q
      → Perm (queue_add q p) (p ∷ q) × InOrder due (queue_add q p))
    (sorts : (q : List Pending) → Perm (queue_of q) q × InOrder due (queue_of q)) where
  pub aggregator-Stepped :
      (p : Pipeline) (shard : Option ℕ) (scope : ℕ)
      → IsBalanced cfg threshold p
      → Stepped cfg threshold p 0 0
          (fire_aggregator cfg map_cfg threshold md5 clock queue_add queue_of shard scope p)
  unfolding fire_aggregator
  aggregator-Stepped p shard scope b =
      let r = Aggregator.fire (aggregator_config cfg) (clock p.reads) shard scope p.aggregator in
      let fired = λ (m : ℕ → ℕ).
        fire-Leaves (of_record (by_identity m)) (aggregator_config cfg) (clock p.reads) shard scope
          p.aggregator b.ready.aggregator_entered b.ready.aggregator_routed in
      same-Stepped cfg threshold p _ b
        record {
          aggregator_entered = (fired one).inside;
          aggregator_routed = (fired one).routed;
          limiter_entered = b.ready.limiter_entered;
          limiter_ready = b.ready.limiter_ready;
          collector_built = b.ready.collector_built;
        }
        refl
        (λ m. omega (
          arith,
          (fired m).kept,
          with_task (by_identity m) p.tasks (map limit (out r.0)),
          of_limits (by_identity m) r.0,
        ))

  pub collector-Stepped :
      (p : Pipeline) (scope : ℕ)
      → IsBalanced cfg threshold p
      → Stepped cfg threshold p 0 0
          (fire_collector cfg map_cfg threshold md5 clock queue_add queue_of scope p)
  unfolding fire_collector
  collector-Stepped p scope b =
      let limits = collector_config cfg.collection_max_count cfg.collection_max_size threshold in
      let c =
        fire-Conserves put_ops limits put_laws (clock p.reads) scope p.collector
          b.ready.collector_built in
      let r = Reducer.fire put_ops limits (clock p.reads) scope p.collector in
      same-Stepped cfg threshold p _ b
        (collected-IsReady (by_identity one) cfg map_cfg threshold md5 clock queue_add queue_of adds
          sorts p.collector.active.items r p b.ready c)
        refl
        (λ m. omega (
          arith,
          collected-kept (by_identity m) cfg threshold map_cfg md5 clock queue_add queue_of
              p.collector.active.items r p c,
        ))

  pub rounded :
      (m : ℕ → ℕ) (p : Pipeline)
      → IsReady cfg threshold p
      → (r : List Dispatched × Limiter × ℕ) × (Limiter.drain_round queue_add queue_of clock p.reads
            p.limiter
          ≡ ok r)
        × Leaves
            (of_batch (of_record (by_identity m)))
            (of_limiter (of_batch (of_record (by_identity m))) p.limiter)
            r
  rounded m p h =
      drain_round-Leaves (of_batch (of_record (by_identity m))) queue_add queue_of adds sorts clock
        p.reads p.limiter h.limiter_entered h.limiter_ready

  -- The round that returned, by another measure.
  pub rounded_same :
      (m : ℕ → ℕ) (p : Pipeline)
      → IsReady cfg threshold p
      → (r : List Dispatched × Limiter × ℕ)
      → Limiter.drain_round queue_add queue_of clock p.reads p.limiter ≡ ok r
      → Leaves
          (of_batch (of_record (by_identity m)))
          (of_limiter (of_batch (of_record (by_identity m))) p.limiter)
          r
  rounded_same m p h r e =
      let (r', returned, done) = rounded m p h in
      subst
        (λ (x : Result BucketError (List Dispatched × Limiter × ℕ)). elim x [
          | ok v ↦
              Leaves (of_batch (of_record (by_identity m)))
                (of_limiter (of_batch (of_record (by_identity m))) p.limiter) v
          | err raised ↦ Unit
        ])
        (sym returned ∙ e) done

  pub drain_tick-ok :
      (p : Pipeline) (r : List Dispatched × Limiter × ℕ)
      → Limiter.drain_round queue_add queue_of clock p.reads p.limiter ≡ ok r
      → drain_tick cfg map_cfg threshold md5 clock queue_add queue_of p
        ≡ ok (record p { limiter = r.1; reads = r.2; tasks = p.tasks ++ map dispatched r.0 ∷ [] })
  unfolding drain_tick
  drain_tick-ok p r e = rw (drain_tick, e) refl

  pub drains-Stepped :
      (p q : Pipeline)
      → IsBalanced cfg threshold p
      → drain_tick cfg map_cfg threshold md5 clock queue_add queue_of p ≡ ok q
      → Stepped cfg threshold p 0 0 q
  drains-Stepped p q b e =
      let (r, returned, done) = rounded one p b.ready in
      let q' = record p {
        limiter = r.1;
        reads = r.2;
        tasks = p.tasks ++ map dispatched r.0 ∷ [];
      } in
      subst
        (λ (x : Result PipelineError Pipeline). elim x [
          | ok v ↦ Stepped cfg threshold p 0 0 v
          | err raised ↦ Unit
        ])
        (sym (drain_tick-ok p r returned) ∙ e)
        (same-Stepped cfg threshold p q' b
          record {
            aggregator_entered = b.ready.aggregator_entered;
            aggregator_routed = b.ready.aggregator_routed;
            limiter_entered = done.inside;
            limiter_ready = done.ready;
            collector_built = b.ready.collector_built;
          }
          refl
          (λ m. omega (
            arith,
            (rounded_same m p b.ready r returned).kept,
            with_task (by_identity m) p.tasks (map dispatched r.0),
            total-map (of_job (by_identity m)) dispatched r.0,
          )))
