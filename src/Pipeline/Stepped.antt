-- ===== src/Pipeline/Stepped.antt =====
-- What a step of a pipeline comes to, and the steps that move no record.
use aiokpl.Common.{ℕ, ◌+◌, ◌≡◌, refl, sym, ap, ◌∙◌, List, [], ◌∷◌, ◌++◌, arith}
use aiokpl.Common.Total.{total, total-append}
use aiokpl.Common.Keys.{of_keys}
use aiokpl.Common.Eq.{nat_Eq}
use aiokpl.ShardMap.{ShardMap}
use aiokpl.Retrier.Dispatch.{Origin}
use aiokpl.Config.{Config}
use aiokpl.Pipeline.Stages.{IsReady, same-IsReady}
use aiokpl.Pipeline.Types.{Job, flush_aggregator, flush_limiter, flush_collector, Pipeline}
use aiokpl.Pipeline.Contents.{of_job, of_tasks}
use aiokpl.Pipeline.Balance.{by_identity, of_pipeline, IsBalanced, one, of_tasks-at}
use aiokpl.Pipeline.{start_flush, cancel_outcome}

-- A new task at the end.
pub with_task :
    (w : Origin → ℕ) (tasks : List (List Job)) (task : List Job)
    → of_tasks w (tasks ++ task ∷ []) ≡ of_tasks w tasks + total (of_job w) task
with_task w tasks task = omega (arith, total-append (total (of_job w)) tasks (task ∷ []))

module _ (cfg : Config) (threshold : ℕ) where
  -- What a step comes to.
  pub record Stepped (p : Pipeline) (new done : ℕ) (q : Pipeline) : Type 0 where
    pub balance : IsBalanced cfg threshold q
    pub count : of_keys one q.pending + done ≡ of_keys one p.pending + new

  -- A step that changes neither the table nor what the pipeline holds.
  pub same-Stepped :
      (p q : Pipeline)
      → IsBalanced cfg threshold p
      → IsReady cfg threshold q
      → q.pending ≡ p.pending
      → ((m : ℕ → ℕ) → of_pipeline m q ≡ of_pipeline m p)
      → Stepped p 0 0 q
  same-Stepped p q b h e same = record {
    balance = record {
      ready = h;
      unique = rw e b.unique;
      balanced = λ m. same m ∙ b.balanced m ∙ sym (ap (of_keys m) e);
    };
    count = rw e refl;
  }

  pub ends-Stepped :
      (p : Pipeline) (before after : List (List Job))
      → IsBalanced cfg threshold p
      → p.tasks ≡ before ++ [] ∷ after
      → Stepped p 0 0 (record p { tasks = before ++ after })
  ends-Stepped p before after b te =
      same-Stepped p (record p { tasks = before ++ after }) b
        (same-IsReady cfg threshold p _ b.ready refl refl refl) refl
        (λ m. omega (
          arith,
          ap (of_tasks (by_identity m)) te,
          of_tasks-at (by_identity m) before after [],
          total-append (total (of_job (by_identity m))) before after,
        ))

  pub refreshes-Stepped :
      (p : Pipeline) (m : ShardMap)
      → IsBalanced cfg threshold p
      → Stepped p 0 0 (record p { shard_map = m })
  refreshes-Stepped p m b =
      same-Stepped p (record p { shard_map = m }) b
        (same-IsReady cfg threshold p _ b.ready refl refl refl) refl (λ k. refl)

  pub flushes-Stepped : (p : Pipeline) → IsBalanced cfg threshold p → Stepped p 0 0 (start_flush p)
  flushes-Stepped p b =
      same-Stepped p (start_flush p) b (same-IsReady cfg threshold p _ b.ready refl refl refl) refl
        (λ m. omega (
          arith,
          with_task (by_identity m) p.tasks
              (flush_aggregator ∷ flush_limiter ∷ flush_collector ∷ []),
        ))

  pub cancels-Stepped :
      (p : Pipeline) (n : ℕ) → IsBalanced cfg threshold p → Stepped p 0 0 (cancel_outcome n p)
  unfolding cancel_outcome
  cancels-Stepped p n b =
      same-Stepped p _ b (same-IsReady cfg threshold p _ b.ready refl refl refl) refl (λ m. refl)
