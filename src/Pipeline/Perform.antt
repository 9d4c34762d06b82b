-- ===== src/Pipeline/Perform.antt =====
-- A step of a task never raises, and loses no record.
use mathlib.Core.List.{Perm}
use aiokpl.Common.{ℕ, ◌+◌, ◌≡◌, refl, ◌∙◌, Option, List, [], ◌∷◌, ◌++◌, arith, map}
use aiokpl.Common.Total.{total, total-append, total-map}
use aiokpl.Common.Eq.{nat_Eq}
use aiokpl.Common.Result.{ok}
use aiokpl.Aggregation.Types.{Bytes}
use aiokpl.Batch.{AggregatedBatch}
use aiokpl.Reducer.Run.{out, add-Conserves, flush-Conserves}
use aiokpl.Reducer.Sort.{InOrder}
use aiokpl.Reducer.{ReducerState}
use aiokpl.Collector
use aiokpl.Collector.{PutRecordsBatch, put_ops, collector_config}
use aiokpl.Collector.PerShard.{put_laws}
use aiokpl.ShardMap.{ShardMap, ShardMapConfig}
use aiokpl.ShardMap
use aiokpl.Aggregator.Contents.{of_batch, put_buffered-Leaves, flush-Flushed}
use aiokpl.Limiter.{Pending, Dispatched, expires, admits}
use aiokpl.Limiter.Drain.{due}
use aiokpl.Limiter.Contents.{put-Leaves, flush-Leaves}
use aiokpl.Limiter
use aiokpl.Aggregator
use aiokpl.Retrier.{finish, retry, invalidate}
use aiokpl.Retrier.Dispatch.{Origin}
use aiokpl.Config.{Config, aggregator_config, limiter_config}
use aiokpl.Pipeline.Stages.{
  Accounts, IsReady, same-IsReady, Collects, collected-kept, handle_expired-kept,
}
use aiokpl.Pipeline.Types.{
  Job, aggregate, limit, dispatched, acts, flush_aggregator, flush_limiter, flush_collector,
  Pipeline, on_retrier_finish,
}
use aiokpl.Pipeline.{Progress, handle_report, handle_expired, collected, act, perform}
use aiokpl.Pipeline.Contents.{of_record, of_job, of_stages, of_finished, of_limits}

module _ (w : Origin → ℕ) (cfg : Config) (map_cfg : ShardMapConfig) (threshold : ℕ)
    (md5 : Bytes → Bytes) (clock : ℕ → ℕ) (queue_add : List Pending → Pending → List Pending)
    (queue_of : List Pending → List Pending)
    (adds : (q : List Pending) (p : Pending)
      → InOrder due q
      → Perm (queue_add q p) (p ∷ q) × InOrder due (queue_add q p))
    (sorts : (q : List Pending) → Perm (queue_of q) q × InOrder due (queue_of q)) where
  -- A job that is done.
  pub record Performed (job : Job) (p : Pipeline) : Type 0 where
    pub progress : Progress
    pub returns : perform cfg map_cfg threshold md5 clock queue_add queue_of job p ≡ ok progress
    pub ready : IsReady cfg threshold progress.1
    pub kept :
        total (of_job w) progress.0 + of_stages w progress.1 + of_finished w job
        ≡ of_job w job + of_stages w p
    pub accounts : Accounts job p progress

  -- The pipeline after a step of the collector.
  pub collected-IsReady :
      (xs : List AggregatedBatch) (r : Option PutRecordsBatch × ReducerState PutRecordsBatch)
      (p : Pipeline)
      → IsReady cfg threshold p
      → Collects w cfg threshold xs r
      → IsReady cfg threshold (collected cfg map_cfg threshold md5 clock queue_add queue_of r p)
  collected-IsReady xs r p h c = record {
    aggregator_entered = h.aggregator_entered;
    aggregator_routed = h.aggregator_routed;
    limiter_entered = h.limiter_entered;
    limiter_ready = h.limiter_ready;
    collector_built = c.holds;
  }

  pub perform-Performed : (job : Job) (p : Pipeline) → IsReady cfg threshold p → Performed job p
  unfolding perform act on_retrier_finish handle_expired handle_report Collector.put Collector.flush
  perform-Performed (aggregate x) p h =
      let (r, e, done) =
        put_buffered-Leaves (of_record w) (aggregator_config cfg) (clock p.reads) p.shard_map x
          p.aggregator h.aggregator_entered h.aggregator_routed in
      record {
        progress = (map limit (out r.0), record p { aggregator = r.1; reads = p.reads + 1 }, 0);
        returns = rw e refl;
        ready = record {
          aggregator_entered = done.inside;
          aggregator_routed = done.routed;
          limiter_entered = h.limiter_entered;
          limiter_ready = h.limiter_ready;
          collector_built = h.collector_built;
        };
        kept = omega (arith, done.kept, of_limits w r.0);
        accounts = (refl, refl, refl);
      }
  perform-Performed (limit batch) p h =
      let (r, e, done) =
        put-Leaves (of_batch (of_record w)) queue_add queue_of adds sorts (limiter_config cfg) clock
          p.reads batch p.limiter h.limiter_entered h.limiter_ready in
      record {
        progress = (map dispatched r.0, record p { limiter = r.1; reads = r.2 }, 0);
        returns = rw e refl;
        ready = record {
          aggregator_entered = h.aggregator_entered;
          aggregator_routed = h.aggregator_routed;
          limiter_entered = done.inside;
          limiter_ready = done.ready;
          collector_built = h.collector_built;
        };
        kept = omega (arith, done.kept, total-map (of_job w) dispatched r.0);
        accounts = (refl, refl, refl);
      }
  perform-Performed (acts (finish x result)) p h = record {
    progress = ([], on_retrier_finish x result p, 1);
    returns = refl;
    ready = same-IsReady cfg threshold p _ h refl refl refl;
    kept = omega arith;
    accounts = (refl, refl, refl);
  }
  perform-Performed (acts (retry x)) p h = record {
    progress = (aggregate x ∷ [], p, 0);
    returns = refl;
    ready = h;
    kept = omega arith;
    accounts = (refl, refl, refl);
  }
  perform-Performed (acts (invalidate seen_at shard)) p h = record {
    progress =
        ([], record p { shard_map = ShardMap.invalidate map_cfg seen_at shard p.shard_map }, 0);
    returns = refl;
    ready = same-IsReady cfg threshold p _ h refl refl refl;
    kept = omega arith;
    accounts = (refl, refl, refl);
  }
  perform-Performed (dispatched (expires batch)) p h =
      let r = handle_expired cfg map_cfg threshold md5 clock queue_add queue_of batch p in
      record {
        progress = (r.0, r.1, 0);
        returns = refl;
        ready = same-IsReady cfg threshold p _ h refl refl refl;
        kept = omega (
          arith,
          handle_expired-kept w cfg threshold map_cfg md5 clock queue_add queue_of batch p,
        );
        accounts = (refl, refl, refl);
      }
  perform-Performed (dispatched (admits batch)) p h =
      let c =
        add-Conserves put_ops
          (collector_config cfg.collection_max_count cfg.collection_max_size threshold) put_laws
          (clock p.reads) batch p.collector h.collector_built in
      let xs = p.collector.active.items ++ batch ∷ [] in
      let r =
        Collector.put cfg.collection_max_count cfg.collection_max_size threshold (clock p.reads)
          batch p.collector in
      record {
        progress = ([], collected cfg map_cfg threshold md5 clock queue_add queue_of r p, 0);
        returns = refl;
        ready = collected-IsReady xs r p h c;
        kept = omega (
          arith,
          collected-kept w cfg threshold map_cfg md5 clock queue_add queue_of xs r p c,
          total-append (of_batch (of_record w)) p.collector.active.items (batch ∷ []),
        );
        accounts = (refl, refl, refl);
      }
  perform-Performed flush_aggregator p h =
      let r = Aggregator.flush (aggregator_config cfg) (clock p.reads) p.aggregator in
      let (done, entered) =
        flush-Flushed (of_record w) (aggregator_config cfg) (clock p.reads) p.aggregator
          h.aggregator_routed in
      record {
        progress = (map limit r.0, record p { aggregator = r.1; reads = p.reads + 1 }, 0);
        returns = refl;
        ready = record {
          aggregator_entered = entered ∙ h.aggregator_entered;
          aggregator_routed = done.routed;
          limiter_entered = h.limiter_entered;
          limiter_ready = h.limiter_ready;
          collector_built = h.collector_built;
        };
        kept = omega (arith, done.kept, total-map (of_job w) limit r.0);
        accounts = (refl, refl, refl);
      }
  perform-Performed flush_limiter p h =
      let r = Limiter.flush clock p.reads p.limiter in
      let done =
        flush-Leaves (of_batch (of_record w)) clock p.reads p.limiter h.limiter_entered
          h.limiter_ready in
      record {
        progress = (map dispatched r.0, record p { limiter = r.1; reads = r.2 }, 0);
        returns = refl;
        ready = record {
          aggregator_entered = h.aggregator_entered;
          aggregator_routed = h.aggregator_routed;
          limiter_entered = done.inside;
          limiter_ready = done.ready;
          collector_built = h.collector_built;
        };
        kept = omega (arith, done.kept, total-map (of_job w) dispatched r.0);
        accounts = (refl, refl, refl);
      }
  perform-Performed flush_collector p h =
      let c =
        flush-Conserves put_ops
          (collector_config cfg.collection_max_count cfg.collection_max_size threshold) put_laws
          (clock p.reads) p.collector h.collector_built in
      let r =
        Collector.flush cfg.collection_max_count cfg.collection_max_size threshold (clock p.reads)
          p.collector in
      record {
        progress = ([], collected cfg map_cfg threshold md5 clock queue_add queue_of r p, 0);
        returns = refl;
        ready = collected-IsReady p.collector.active.items r p h c;
        kept = omega (
          arith,
          collected-kept w cfg threshold map_cfg md5 clock queue_add queue_of
              p.collector.active.items r p c,
        );
        accounts = (refl, refl, refl);
      }
