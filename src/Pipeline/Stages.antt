-- ===== src/Pipeline/Stages.antt =====
-- What the stages hold between two steps, and what the collector and the retrier keep of it.
use aiokpl.Common.{
  ℕ, ◌+◌, ◌≡◌, refl, ap, ◌∙◌, inl, true, Option, none, some, List, [], ◌∷◌, ◌++◌, arith,
}
use aiokpl.Common.Total.{total, total-append, total-Perm, measured}
use aiokpl.Common.Eq.{nat_Eq}
use aiokpl.Aggregation.Types.{Bytes}
use aiokpl.Batch.{AggregatedBatch}
use aiokpl.Reducer.Run.{out, Conserves}
use aiokpl.Reducer.Split.{IsBuilt}
use aiokpl.Reducer.{ReducerState}
use aiokpl.Collector.{PutRecordsBatch, put_ops, collector_config}
use aiokpl.Collector.PerShard.{put_laws}
use aiokpl.ShardMap.{ShardMap, ShardMapConfig}
use aiokpl.ShardMap
use aiokpl.Aggregator.Route.{IsRouted}
use aiokpl.Aggregator.Contents.{of_batch}
use aiokpl.Limiter.{Pending}
use aiokpl.Limiter.Put.{AllReady}
use aiokpl.Sender.{SendOutcome}
use aiokpl.Sender.Aligned.{IsAligned}
use aiokpl.Retrier.{finish}
use aiokpl.Retrier.Dispatch.{Origin, handle-settles}
use aiokpl.Config.{Config, aggregator_config, retrier_config}
use aiokpl.Pipeline.Types.{Job, acts, Pipeline, on_retrier_finish}
use aiokpl.Pipeline.{Progress, handle_report, expired_report, handle_expired, collected}
use aiokpl.Pipeline.Contents.{
  of_record, of_put_batch, of_job, of_stages, of_collected, of_origins, of_actions,
}

-- The pending table and the outcomes through a job, with the count of finished records.
abbrev pub Accounts : Job → Pipeline → Progress → Type 0
Accounts (acts (finish x result)) p r =
    (r.1.pending ≡ (on_retrier_finish x result p).pending)
    × (r.1.outcomes ≡ (on_retrier_finish x result p).outcomes)
    × (r.2 ≡ 1)
Accounts job p r = (r.1.pending ≡ p.pending) × (r.1.outcomes ≡ p.outcomes) × (r.2 ≡ 0)

module _ (cfg : Config) (threshold : ℕ) where
  -- The collector's reducer holds what its own operations built.
  abbrev pub IsCollector : ReducerState PutRecordsBatch → Type 0
  IsCollector s =
      IsBuilt put_ops (collector_config cfg.collection_max_count cfg.collection_max_size threshold)
        put_laws s

  -- The stages are entered, and hold what their own operations built.
  pub record IsReady (p : Pipeline) : Type 0 where
    pub aggregator_entered : p.aggregator.entered ≡ true
    pub aggregator_routed : IsRouted (aggregator_config cfg) p.aggregator
    pub limiter_entered : p.limiter.entered ≡ true
    pub limiter_ready : AllReady p.limiter
    pub collector_built : IsCollector p.collector

  -- The stages of a pipeline whose tasks or table change.
  pub same-IsReady :
      (p q : Pipeline)
      → IsReady p
      → q.aggregator ≡ p.aggregator
      → q.limiter ≡ p.limiter
      → q.collector ≡ p.collector
      → IsReady q
  same-IsReady p q h a l c = record {
    aggregator_entered = rw a h.aggregator_entered;
    aggregator_routed = rw a h.aggregator_routed;
    limiter_entered = rw l h.limiter_entered;
    limiter_ready = rw l h.limiter_ready;
    collector_built = rw c h.collector_built;
  }

module _ (w : Origin → ℕ) (cfg : Config) (threshold : ℕ) where
  -- A step of the collector's reducer.
  abbrev pub Collects :
      List AggregatedBatch → Option PutRecordsBatch × ReducerState PutRecordsBatch → Type 0
  Collects xs r =
      Conserves put_ops
        (collector_config cfg.collection_max_count cfg.collection_max_size threshold) put_laws xs
        (out r.0) r.1

  of_Collects :
      (xs : List AggregatedBatch) (b : Option PutRecordsBatch) (s : ReducerState PutRecordsBatch)
      → Collects xs (b, s)
      → measured (of_put_batch w) b + of_put_batch w s.active ≡ total (of_batch (of_record w)) xs
  of_Collects xs none s c = omega (arith, total-Perm (of_batch (of_record w)) c.kept)
  of_Collects xs (some b) s c = omega (
    arith,
    total-Perm (of_batch (of_record w)) c.kept,
    total-append (of_batch (of_record w)) (b.items ++ []) s.active.items,
    total-append (of_batch (of_record w)) b.items [],
  )

  module _ (map_cfg : ShardMapConfig) (md5 : Bytes → Bytes) (clock : ℕ → ℕ)
      (queue_add : List Pending → Pending → List Pending)
      (queue_of : List Pending → List Pending) where
    pub collected-kept :
        (xs : List AggregatedBatch) (r : Option PutRecordsBatch × ReducerState PutRecordsBatch)
        (p : Pipeline)
        → Collects xs r
        → of_stages w (collected cfg map_cfg threshold md5 clock queue_add queue_of r p)
            + of_put_batch w p.collector.active
          ≡ of_stages w p + total (of_batch (of_record w)) xs
    collected-kept xs r p c = omega (
      arith,
      of_Collects xs r.0 r.1 c,
      of_collected w r.0,
      total-append (of_put_batch w) p.in_flight (out r.0),
    )

    -- The retrier's callbacks are of the records of the report.
    pub handle_report-kept :
        (items : List AggregatedBatch) (o : SendOutcome) (p : Pipeline)
        → IsAligned items o
        → total (of_job w) (handle_report cfg map_cfg threshold md5 clock queue_add queue_of o p).0
          ≡ total (of_batch (of_record w)) items
    unfolding handle_report
    handle_report-kept items o p h =
        of_actions w _
        ∙ ap (total w) (
            handle-settles (retrier_config cfg) clock
              (λ r shard. ShardMap.hashrange shard p.shard_map) p.reads items o h)
        ∙ of_origins w items

    pub handle_expired-kept :
        (batch : AggregatedBatch) (p : Pipeline)
        → total
            (of_job w)
            (handle_expired cfg map_cfg threshold md5 clock queue_add queue_of batch p).0
          ≡ of_batch (of_record w) batch
    unfolding handle_expired expired_report
    handle_expired-kept batch p =
        handle_report-kept (batch ∷ [])
          (expired_report cfg map_cfg threshold md5 clock queue_add queue_of batch p)
          (record p { reads = p.reads + 1 }) (refl, inl (refl, λ e. cc e))
        ∙ omega arith
