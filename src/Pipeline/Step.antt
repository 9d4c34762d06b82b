-- ===== src/Pipeline/Step.antt =====
-- What can happen to a running pipeline, in any order: its tasks take turns, timers fire, the
-- service replies, the shard map is refreshed, records are submitted and outcomes are cancelled.
use aiokpl.Common.{ℕ, ◌≡◌, Option, none, List, [], ◌∷◌, ◌++◌}
use aiokpl.Common.Dict
use aiokpl.Common.Dict.{Dict}
use aiokpl.Common.Eq.{nat_Eq}
use aiokpl.Common.Result.{ok}
use aiokpl.Aggregation.Types.{Bytes, UserRecord}
use aiokpl.Collector.{PutRecordsBatch}
use aiokpl.Limiter.{Pending}
use aiokpl.ShardMap.{ShardMap, ShardMapConfig}
use aiokpl.Sender.{Entry, Reply}
use aiokpl.Config.{Config}
use aiokpl.Pipeline.Types.{Job, Pipeline}
use aiokpl.Pipeline.{
  Progress, perform, send_and_handle, fire_aggregator, fire_collector, drain_tick, submit,
  start_flush, cancel_outcome,
}

module _ (cfg : Config) (map_cfg : ShardMapConfig) (threshold : ℕ) (md5 : Bytes → Bytes)
    (clock : ℕ → ℕ) (queue_add : List Pending → Pending → List Pending)
    (queue_of : List Pending → List Pending) where
  -- A step from `p` to `q` that registers `new` records and finishes `done`.
  pub data Step (p : Pipeline) (new done : ℕ) (q : Pipeline) : Type 0 where
    -- A task does its first job.
    performs :
        (before after : List (List Job)) (job : Job) (rest : List Job) (r : Progress)
        → p.tasks ≡ before ++ (job ∷ rest) ∷ after
        → perform cfg map_cfg threshold md5 clock queue_add queue_of job p ≡ ok r
        → new ≡ 0
        → done ≡ r.2
        → q ≡ record r.1 { tasks = before ++ (r.0 ++ rest) ∷ after }
        → Step p new done q
    -- A task that has no job left ends.
    ends :
        (before after : List (List Job))
        → p.tasks ≡ before ++ [] ∷ after
        → new ≡ 0
        → done ≡ 0
        → q ≡ record p { tasks = before ++ after }
        → Step p new done q
    -- The service replies to a batch, whatever it replies.
    answers :
        (before after : List PutRecordsBatch) (batch : PutRecordsBatch)
        (put_records : List Entry → Reply) (r : List Job × Pipeline)
        → p.in_flight ≡ before ++ batch ∷ after
        → send_and_handle cfg map_cfg threshold md5 clock queue_add queue_of put_records batch
            (record p { in_flight = before ++ after })
          ≡ ok r
        → new ≡ 0
        → done ≡ 0
        → q ≡ record r.1 { tasks = r.1.tasks ++ r.0 ∷ [] }
        → Step p new done q
    aggregator_fires :
        (shard : Option ℕ) (scope : ℕ)
        → new ≡ 0
        → done ≡ 0
        → q ≡ fire_aggregator cfg map_cfg threshold md5 clock queue_add queue_of shard scope p
        → Step p new done q
    collector_fires :
        (scope : ℕ)
        → new ≡ 0
        → done ≡ 0
        → q ≡ fire_collector cfg map_cfg threshold md5 clock queue_add queue_of scope p
        → Step p new done q
    drains :
        drain_tick cfg map_cfg threshold md5 clock queue_add queue_of p ≡ ok q
        → new ≡ 0
        → done ≡ 0
        → Step p new done q
    -- The shard map's own tasks leave it as `m`.
    refreshes :
        (m : ShardMap) → new ≡ 0 → done ≡ 0 → q ≡ record p { shard_map = m } → Step p new done q
    -- A record is submitted as a new object: no pending one has its identity.
    submits :
        (identity : ℕ) (r : UserRecord)
        → Dict.get identity p.pending ≡ none
        → submit cfg map_cfg threshold md5 clock queue_add queue_of identity r p ≡ ok q
        → new ≡ 1
        → done ≡ 0
        → Step p new done q
    flushes : new ≡ 0 → done ≡ 0 → q ≡ start_flush p → Step p new done q
    cancels : (n : ℕ) → new ≡ 0 → done ≡ 0 → q ≡ cancel_outcome n p → Step p new done q

  -- The pipelines that a sequence of steps leads to.
  pub data Reaches (p : Pipeline) : Pipeline → Type 0 where
    here : Reaches p p
    next : {q r : Pipeline} {new done : ℕ} → Reaches p q → Step q new done r → Reaches p r
