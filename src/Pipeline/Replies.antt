-- ===== src/Pipeline/Replies.antt =====
-- A reply of the service keeps the balance: the callbacks are of the records of its batch.
use mathlib.Core.Path.{subst}
use mathlib.Core.List.{Perm}
use aiokpl.Common.{ℕ, ◌+◌, ◌≡◌, refl, ap, List, [], ◌∷◌, ◌++◌, arith}
use aiokpl.Common.Total.{total, total-append}
use aiokpl.Common.Eq.{nat_Eq}
use aiokpl.Common.Result.{Result, ok, err, >>=-eq-ok}
use aiokpl.Aggregation.Types.{Bytes}
use aiokpl.Collector.{PutRecordsBatch}
use aiokpl.Reducer.Sort.{InOrder}
use aiokpl.ShardMap.{ShardMapConfig}
use aiokpl.Limiter.{Pending}
use aiokpl.Limiter.Drain.{due}
use aiokpl.Limiter.Contents.{of_limiter}
use aiokpl.Aggregator.Contents.{of_batch, of_aggregator}
use aiokpl.Retrier.Dispatch.{Origin}
use aiokpl.Sender.{SendError, Entry, Reply, send}
use aiokpl.Sender.Aligned.{send-IsAligned}
use aiokpl.Config.{Config}
use aiokpl.Pipeline.Stages.{same-IsReady, handle_report-kept}
use aiokpl.Pipeline.Types.{Job, Pipeline, PipelineError, or_send}
use aiokpl.Pipeline.Contents.{of_record, of_put_batch, of_job, of_tasks}
use aiokpl.Pipeline.Balance.{by_identity, IsBalanced}
use aiokpl.Pipeline.{handle_report, send_and_handle}
use aiokpl.Pipeline.Stepped.{Stepped, same-Stepped, with_task}

module _ (cfg : Config) (map_cfg : ShardMapConfig) (threshold : ℕ) (md5 : Bytes → Bytes)
    (clock : ℕ → ℕ) (queue_add : List Pending → Pending → List Pending)
    (queue_of : List Pending → List Pending)
    (adds : (q : List Pending) (p : Pending)
      → InOrder due q
      → Perm (queue_add q p) (p ∷ q) × InOrder due (queue_add q p))
    (sorts : (q : List Pending) → Perm (queue_of q) q × InOrder due (queue_of q)) where
  -- A reply that was handled.
  pub record Replied (p : Pipeline) (batch : PutRecordsBatch) (r : List Job × Pipeline)
      : Type 0 where
    pub jobs : (w : Origin → ℕ) → total (of_job w) r.0 ≡ of_put_batch w batch
    pub aggregator : r.1.aggregator ≡ p.aggregator
    pub limiter : r.1.limiter ≡ p.limiter
    pub collector : r.1.collector ≡ p.collector
    pub in_flight : r.1.in_flight ≡ p.in_flight
    pub tasks : r.1.tasks ≡ p.tasks
    pub pending : r.1.pending ≡ p.pending
    pub outcomes : r.1.outcomes ≡ p.outcomes

  pub or_send-ok : {A : Type 0} (x : Result SendError A) (a : A) → or_send x ≡ ok a → x ≡ ok a
  or_send-ok (ok b) a e = cc
  or_send-ok (err raised) a e = cc

  pub send_and_handle-Replied :
      (p : Pipeline) (batch : PutRecordsBatch) (put_records : List Entry → Reply)
      (r : List Job × Pipeline)
      → send_and_handle cfg map_cfg threshold md5 clock queue_add queue_of put_records batch p
        ≡ ok r
      → Replied p batch r
  unfolding send_and_handle handle_report
  send_and_handle-Replied p batch put_records r e =
      let (o, sent, rest) =
        >>=-eq-ok
          (or_send (send md5 p.stream put_records (clock p.reads) (clock (p.reads + 1)) batch)) _
          e in
      let aligned =
        send-IsAligned md5 p.stream put_records (clock p.reads) (clock (p.reads + 1)) batch o
          (or_send-ok _ o sent) in
      subst
        (λ (x : Result PipelineError (List Job × Pipeline)). elim x [
          | ok v ↦ Replied p batch v
          | err raised ↦ Unit
        ])
        rest
        record {
          jobs = λ w.
              handle_report-kept w cfg threshold map_cfg md5 clock queue_add queue_of batch.items o
                (record p { reads = p.reads + 2 }) aligned;
          aggregator = refl;
          limiter = refl;
          collector = refl;
          in_flight = refl;
          tasks = refl;
          pending = refl;
          outcomes = refl;
        }

  pub answers-Stepped :
      (p : Pipeline) (before after : List PutRecordsBatch) (batch : PutRecordsBatch)
      (put_records : List Entry → Reply) (r : List Job × Pipeline)
      → IsBalanced cfg threshold p
      → p.in_flight ≡ before ++ batch ∷ after
      → send_and_handle cfg map_cfg threshold md5 clock queue_add queue_of put_records batch
          (record p { in_flight = before ++ after })
        ≡ ok r
      → Stepped cfg threshold p 0 0 (record r.1 { tasks = r.1.tasks ++ r.0 ∷ [] })
  answers-Stepped p before after batch put_records r b fe e =
      let done =
        send_and_handle-Replied (record p { in_flight = before ++ after }) batch put_records r e in
      same-Stepped cfg threshold p (record r.1 { tasks = r.1.tasks ++ r.0 ∷ [] }) b
        (same-IsReady cfg threshold p _ b.ready done.aggregator done.limiter done.collector)
        done.pending
        (λ m.
          let w = by_identity m in
          omega (
            arith,
            done.jobs w,
            with_task w r.1.tasks r.0,
            ap (of_tasks w) done.tasks,
            ap (total (of_put_batch w)) done.in_flight,
            ap (total (of_put_batch w)) fe,
            total-append (of_put_batch w) before after,
            total-append (of_put_batch w) before (batch ∷ after),
            ap (of_aggregator (of_record w)) done.aggregator,
            ap (of_limiter (of_batch (of_record w))) done.limiter,
            ap (λ c. of_put_batch w c.active) done.collector,
          ))
