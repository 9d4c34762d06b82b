-- ===== src/Pipeline/Jobs.antt =====
-- A step of a task keeps the balance of its pipeline.
use mathlib.Core.Path.{subst}
use mathlib.Core.List.{Perm}
use aiokpl.Common.{ℕ, ◌+◌, ◌≡◌, refl, sym, ap, ◌∙◌, List, ◌∷◌, ◌++◌, arith}
use aiokpl.Common.Total.{total, total-append}
use aiokpl.Common.Eq.{nat_Eq}
use aiokpl.Common.Result.{Result, ok, err}
use aiokpl.Aggregation.Types.{Bytes}
use aiokpl.Reducer.Sort.{InOrder}
use aiokpl.ShardMap.{ShardMapConfig}
use aiokpl.Limiter.{Pending}
use aiokpl.Limiter.Drain.{due}
use aiokpl.Retrier.Dispatch.{Origin}
use aiokpl.Config.{Config}
use aiokpl.Pipeline.Stages.{Accounts, IsReady, same-IsReady}
use aiokpl.Pipeline.Types.{Job, Pipeline, PipelineError}
use aiokpl.Pipeline.Contents.{of_job, of_stages, of_tasks, of_finished}
use aiokpl.Pipeline.Perform.{perform-Performed}
use aiokpl.Pipeline.Balance.{
  by_identity, IsBalanced, one, of_tasks-at, done-of_finished, performed-Removes,
}
use aiokpl.Pipeline.{Progress, perform}
use aiokpl.Pipeline.Stepped.{Stepped}

module _ (cfg : Config) (map_cfg : ShardMapConfig) (threshold : ℕ) (md5 : Bytes → Bytes)
    (clock : ℕ → ℕ) (queue_add : List Pending → Pending → List Pending)
    (queue_of : List Pending → List Pending)
    (adds : (q : List Pending) (p : Pending)
      → InOrder due q
      → Perm (queue_add q p) (p ∷ q) × InOrder due (queue_add q p))
    (sorts : (q : List Pending) → Perm (queue_of q) q × InOrder due (queue_of q)) where
  -- A job that returned `r`.
  pub record Returned (w : Origin → ℕ) (job : Job) (p : Pipeline) (r : Progress) : Type 0 where
    pub ready : IsReady cfg threshold r.1
    kept : total (of_job w) r.0 + of_stages w r.1 + of_finished w job ≡ of_job w job + of_stages w p
    pub accounts : Accounts job p r

  pub perform-Returned :
      (w : Origin → ℕ) (job : Job) (p : Pipeline) (r : Progress)
      → IsReady cfg threshold p
      → perform cfg map_cfg threshold md5 clock queue_add queue_of job p ≡ ok r
      → Returned w job p r
  perform-Returned w job p r h e =
      let done =
        perform-Performed w cfg map_cfg threshold md5 clock queue_add queue_of adds sorts job p h in
      subst
        (λ (x : Result PipelineError Progress). elim x [
          | ok v ↦ Returned w job p v
          | err raised ↦ Unit
        ])
        (sym done.returns ∙ e)
        record { ready = done.ready; kept = done.kept; accounts = done.accounts }

  pub performs-Stepped :
      (p : Pipeline) (before after : List (List Job)) (job : Job) (rest : List Job) (r : Progress)
      → IsBalanced cfg threshold p
      → p.tasks ≡ before ++ (job ∷ rest) ∷ after
      → perform cfg map_cfg threshold md5 clock queue_add queue_of job p ≡ ok r
      → Stepped cfg threshold p 0 r.2 (record r.1 { tasks = before ++ (r.0 ++ rest) ∷ after })
  performs-Stepped p before after job rest r b te e =
      let returned = λ (m : ℕ → ℕ). perform-Returned (by_identity m) job p r b.ready e in
      let there = λ (m : ℕ → ℕ).
        ap (of_tasks (by_identity m)) te ∙ of_tasks-at (by_identity m) before after (job ∷ rest) in
      let others = λ (m : ℕ → ℕ).
        of_stages (by_identity m) p
        + of_tasks (by_identity m) before
        + total (of_job (by_identity m)) rest
        + of_tasks (by_identity m) after in
      let removes =
        performed-Removes job p r b.unique (λ m. (others m, omega (arith, there m, b.balanced m)))
          (returned one).accounts in
      record {
        balance = record {
          ready = same-IsReady cfg threshold r.1 _ (returned one).ready refl refl refl;
          unique = removes.unique;
          balanced = λ m. omega (
            arith,
            there m,
            b.balanced m,
            (returned m).kept,
            removes.keys m,
            of_tasks-at (by_identity m) before after (r.0 ++ rest),
            total-append (of_job (by_identity m)) r.0 rest,
          );
        };
        count = omega (arith, removes.keys one, done-of_finished job p r (returned one).accounts);
      }
