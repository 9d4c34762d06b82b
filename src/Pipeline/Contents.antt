-- ===== src/Pipeline/Contents.antt =====
-- What a pipeline holds in all, by any measure of its records.
use aiokpl.Common.{
  ℕ, ◌+◌, ◌≡◌, refl, sym, ◌∙◌, Option, none, some, List, [], ◌∷◌, arith, map, flat_map,
}
use aiokpl.Common.Total.{total, total-append, total-map, total-flat_map, measured}
use aiokpl.Common.Eq.{nat_Eq}
use aiokpl.Batch.{BufferedRecord, AggregatedBatch}
use aiokpl.Reducer.Run.{out}
use aiokpl.Collector.{PutRecordsBatch}
use aiokpl.Aggregator.Contents.{of_batch, of_aggregator, of_out}
use aiokpl.Limiter.Contents.{of_limiter, of_call}
use aiokpl.Retrier.{Action, finish}
use aiokpl.Retrier.Dispatch.{Origin, origin, settles, origins}
use aiokpl.Pipeline.Types.{Job, aggregate, limit, dispatched, acts, Pipeline}

module _ (w : Origin → ℕ) where
  -- The measure of a record, which its retries do not change.
  abbrev pub of_record : BufferedRecord → ℕ
  of_record x = w (origin x)

  abbrev pub of_put_batch : PutRecordsBatch → ℕ
  of_put_batch b = total (of_batch of_record) b.items

  abbrev pub of_job : Job → ℕ
  of_job (aggregate x) = of_record x
  of_job (limit batch) = of_batch of_record batch
  of_job (dispatched call) = of_call (of_batch of_record) call
  of_job (acts action) = total w (settles action)
  of_job _ = 0

  -- What the stages hold, and the batches that wait for a reply.
  abbrev pub of_stages : Pipeline → ℕ
  of_stages p =
      of_aggregator of_record p.aggregator
      + of_limiter (of_batch of_record) p.limiter
      + of_put_batch p.collector.active
      + total of_put_batch p.in_flight

  -- What its tasks have yet to do.
  abbrev pub of_tasks : List (List Job) → ℕ
  of_tasks tasks = total (total of_job) tasks

  -- What a job finishes.
  abbrev pub of_finished : Job → ℕ
  of_finished (acts (finish x result)) = of_record x
  of_finished _ = 0

  pub of_limits :
      (b : Option AggregatedBatch) → total of_job (map limit (out b)) ≡ of_out of_record b
  of_limits none = refl
  of_limits (some b) = omega arith

  pub of_collected :
      (b : Option PutRecordsBatch) → total of_put_batch (out b) ≡ measured of_put_batch b
  of_collected none = refl
  of_collected (some b) = omega arith

  pub of_origins :
      (ars : List AggregatedBatch) → total w (origins ars) ≡ total (of_batch of_record) ars
  of_origins [] = refl
  of_origins (ar ∷ ars) = omega (
    arith,
    total-append w (map origin ar.items) (origins ars),
    total-map w origin ar.items,
    of_origins ars,
  )

  pub of_actions :
      (actions : List Action) → total of_job (map acts actions) ≡ total w (flat_map settles actions)
  of_actions actions = total-map of_job acts actions ∙ sym (total-flat_map w settles actions)
