-- ===== src/Pipeline/Tests.antt =====
-- A record through a pipeline, from its submission to its result, and the theorems there.
use mathlib.Core.List.{Perm, perm_append_comm}
use mathlib.Core.List.Perm
use aiokpl.Common.{ℕ, zero, suc, ◌+◌, ◌≡◌, refl, none, some, List, [], ◌∷◌, ◌++◌}
use aiokpl.Common.Dict
use aiokpl.Common.Dict.{Dict}
use aiokpl.Common.Eq.{nat_Eq}
use aiokpl.Common.Keys.{only, counted}
use aiokpl.Common.Result.{Result, ok, err}
use aiokpl.Aggregation.Types.{Bytes, UserRecord}
use aiokpl.Reducer.Sort.{sorted, sorted-perm, sorted-InOrder, InOrder}
use aiokpl.Batch.{BufferedRecord}
use aiokpl.ShardMap.{ShardMapConfig, new_shard_map}
use aiokpl.Aggregator
use aiokpl.Hashing.{md5_hash_key, from_bytes}
use aiokpl.Collector.{PutRecordsBatch}
use aiokpl.Limiter.{Pending}
use aiokpl.Limiter.Drain.{due}
use aiokpl.Sender.{Entry, Reply, responded}
use aiokpl.Config.{Config, default_config}
use aiokpl.Pipeline.Types.{Job, aggregate, Pipeline, PipelineError}
use aiokpl.Pipeline.{drain_tick, Progress, perform, submit, send_and_handle, build_pipeline}
use aiokpl.Pipeline.Step.{performs, ends, answers, submits, Reaches, here, next}
use aiokpl.Pipeline.Balance.{of_pipeline}
use aiokpl.Pipeline.Resolved.{IsResolved, KeepsSet}
use aiokpl.Pipeline.System.{Reaches-IsAccounted, Reaches-keeps_outcomes, Reaches-perform-ok}

-- Each record is a batch, and each batch a request.
abbrev cfg : Config
cfg = record default_config { aggregation_max_count = 1; collection_max_count = 1 }

abbrev map_cfg : ShardMapConfig
map_cfg = record { min_backoff = 1; max_backoff = 8; closed_shard_ttl = 60 }

abbrev md5 : Bytes → Bytes
md5 message = 1 ∷ 2 ∷ []

abbrev clock : ℕ → ℕ
clock reads = 1000 + reads

abbrev queue_add : List Pending → Pending → List Pending
queue_add q p = sorted due (q ++ p ∷ [])

abbrev queue_of : List Pending → List Pending
queue_of = sorted due

queue_adds :
    (q : List Pending) (p : Pending)
    → InOrder due q
    → Perm (queue_add q p) (p ∷ q) × InOrder due (queue_add q p)
queue_adds q p h = (
  Perm.trans (sorted-perm due (q ++ p ∷ [])) (perm_append_comm q (p ∷ [])),
  sorted-InOrder due (q ++ p ∷ []),
)

queue_sorts : (q : List Pending) → Perm (queue_of q) q × InOrder due (queue_of q)
queue_sorts q = (sorted-perm due q, sorted-InOrder due q)

abbrev user_record : UserRecord
user_record = record {
  partition_key = 97 ∷ [];
  content = 1 ∷ 2 ∷ [];
  explicit_hash_key = none;
  tags = [];
}

abbrev buffered : BufferedRecord
buffered = record {
  identity = 7;
  user_record = user_record;
  deadline = 100000;
  hash_key = 258;
  arrival_time = 0;
  attempts = [];
}

abbrev empty_pipeline : Pipeline
empty_pipeline = build_pipeline cfg 262144 (115 ∷ []) (new_shard_map map_cfg) 0

or_same : {E : Type 0} → Pipeline → Result E Pipeline → Pipeline
or_same p (ok q) = q
or_same p (err e) = p

submitted : Pipeline
unfolding or_same submit
submitted =
    or_same empty_pipeline
      (submit cfg map_cfg 262144 md5 clock queue_add queue_of 7 user_record empty_pipeline)

abbrev Leads : Pipeline → Pipeline → Type 0
Leads = Reaches cfg map_cfg 262144 md5 clock queue_add queue_of

abbrev reply : List Entry → Reply
reply records = responded (
    record {
      sequence_number = some (49 ∷ []);
      shard_id = some (115 ∷ []);
      error_code = none;
      error_message = none;
    }
    ∷ [])

-- The state after a job, and after a reply.
done_job : Pipeline → List Job → List (List Job) → Result PipelineError Progress → Pipeline
done_job p rest after (ok r) = record r.1 { tasks = [] ++ (r.0 ++ rest) ∷ after }
done_job p rest after (err e) = p

done_reply : Pipeline → Result PipelineError (List Job × Pipeline) → Pipeline
done_reply p (ok r) = record r.1 { tasks = r.1.tasks ++ r.0 ∷ [] }
done_reply p (err e) = p

-- One step: of the first task, or else the first reply.
turn_by : Pipeline → List (List Job) → List PutRecordsBatch → Pipeline
unfolding done_job done_reply perform send_and_handle
turn_by p ([] ∷ after) sends = record p { tasks = [] ++ after }
turn_by p ((job ∷ rest) ∷ after) sends =
    done_job p rest after (perform cfg map_cfg 262144 md5 clock queue_add queue_of job p)
turn_by p [] (batch ∷ sends) = done_reply p (
    send_and_handle cfg map_cfg 262144 md5 clock queue_add queue_of reply batch
      (record p { in_flight = [] ++ sends }))
turn_by p [] [] = p

done_job-Leads :
    (p0 p : Pipeline) (job : Job) (rest : List Job) (after : List (List Job))
    (result : Result PipelineError Progress)
    → Leads p0 p
    → p.tasks ≡ (job ∷ rest) ∷ after
    → perform cfg map_cfg 262144 md5 clock queue_add queue_of job p ≡ result
    → Leads p0 (done_job p rest after result)
unfolding done_job
done_job-Leads p0 p job rest after (ok r) reach e f =
    next reach (performs [] after job rest r e f refl refl refl)
done_job-Leads p0 p job rest after (err x) reach e f = reach

done_reply-Leads :
    (p0 p : Pipeline) (batch : PutRecordsBatch) (sends : List PutRecordsBatch)
    (result : Result PipelineError (List Job × Pipeline))
    → Leads p0 p
    → p.in_flight ≡ batch ∷ sends
    → send_and_handle cfg map_cfg 262144 md5 clock queue_add queue_of reply batch
        (record p { in_flight = [] ++ sends })
      ≡ result
    → Leads p0 (done_reply p result)
unfolding done_reply
done_reply-Leads p0 p batch sends (ok r) reach e f =
    next reach (answers [] sends batch reply r e f refl refl refl)
done_reply-Leads p0 p batch sends (err x) reach e f = reach

turn_by-Leads :
    (p0 p : Pipeline) (tasks : List (List Job)) (sends : List PutRecordsBatch)
    → Leads p0 p
    → p.tasks ≡ tasks
    → p.in_flight ≡ sends
    → Leads p0 (turn_by p tasks sends)
unfolding turn_by
turn_by-Leads p0 p ([] ∷ after) sends reach e f = next reach (ends [] after e refl refl refl)
turn_by-Leads p0 p ((job ∷ rest) ∷ after) sends reach e f =
    done_job-Leads p0 p job rest after _ reach e refl
turn_by-Leads p0 p [] (batch ∷ sends) reach e f = done_reply-Leads p0 p batch sends _ reach f refl
turn_by-Leads p0 p [] [] reach e f = reach

run : ℕ → Pipeline → Pipeline
unfolding turn_by
run zero p = p
run (suc n) p = run n (turn_by p p.tasks p.in_flight)

run-Leads : (n : ℕ) (p0 p : Pipeline) → Leads p0 p → Leads p0 (run n p)
unfolding run
run-Leads zero p0 p reach = reach
run-Leads (suc n) p0 p reach =
    run-Leads n p0 (turn_by p p.tasks p.in_flight)
      (turn_by-Leads p0 p p.tasks p.in_flight reach refl refl)

submitted-Leads : Leads empty_pipeline submitted
unfolding submitted or_same submit Aggregator.build_buffered Dict.get Dict.put md5_hash_key
    from_bytes
submitted-Leads = next here (submits 7 user_record refl refl refl refl)

ended : Pipeline
unfolding run submitted
ended = run 9 submitted

ended-Leads : Leads submitted ended
unfolding ended
ended-Leads = run-Leads 9 submitted submitted here

-- In flight, after the stages.
half_way : Pipeline
unfolding run submitted
half_way = run 4 submitted

half_way-Leads : Leads empty_pipeline half_way
unfolding half_way
half_way-Leads = run-Leads 4 empty_pipeline submitted submitted-Leads

Reaches-IsAccounted_example :
    ((n : ℕ) → of_pipeline (only n) half_way ≡ counted (Dict.get n half_way.pending))
    × IsResolved half_way
Reaches-IsAccounted_example =
    Reaches-IsAccounted cfg map_cfg 262144 md5 clock queue_add queue_of queue_adds queue_sorts
      (115 ∷ []) (new_shard_map map_cfg) 0 half_way half_way-Leads

Reaches-keeps_outcomes_example : KeepsSet submitted.outcomes ended.outcomes
Reaches-keeps_outcomes_example =
    Reaches-keeps_outcomes cfg map_cfg 262144 md5 clock queue_add queue_of queue_adds queue_sorts
      (115 ∷ []) (new_shard_map map_cfg) 0 submitted ended submitted-Leads ended-Leads

Reaches-perform-ok_example :
    ((r : Progress) × (perform cfg map_cfg 262144 md5 clock queue_add queue_of
          (aggregate buffered)
          submitted
        ≡ ok r))
    × ((r : Pipeline) × (drain_tick cfg map_cfg 262144 md5 clock queue_add queue_of submitted
          ≡ ok r))
Reaches-perform-ok_example =
    Reaches-perform-ok cfg map_cfg 262144 md5 clock queue_add queue_of queue_adds queue_sorts
      (115 ∷ []) (new_shard_map map_cfg) 0 submitted (aggregate buffered) submitted-Leads
