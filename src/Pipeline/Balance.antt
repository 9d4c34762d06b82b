-- ===== src/Pipeline/Balance.antt =====
-- Through each step the pending table has the records that the pipeline holds.
use aiokpl.Common.{ℕ, ◌+◌, ◌≡◌, refl, sym, ap, inl, inr, some, Option-cases, List, ◌∷◌, ◌++◌, arith}
use aiokpl.Common.Total.{total, total-append}
use aiokpl.Common.Keys.{of_keys, of_keys-remove, of_keys-only, remove-IsDict, only, counted}
use aiokpl.Common.Eq.{nat_Eq}
use aiokpl.Common.Dict
use aiokpl.Common.Dict.{Dict, IsDict, put-IsDict}
use aiokpl.Batch.{BufferedRecord}
use aiokpl.Attempt.{RecordResult}
use aiokpl.Retrier.{finish, retry, invalidate}
use aiokpl.Retrier.Dispatch.{Origin}
use aiokpl.Config.{Config}
use aiokpl.Pipeline.Stages.{Accounts, IsReady}
use aiokpl.Pipeline.Types.{
  Job, aggregate, limit, dispatched, acts, flush_aggregator, flush_limiter, flush_collector,
  Pipeline, on_retrier_finish,
}
use aiokpl.Pipeline.Contents.{of_job, of_stages, of_tasks, of_finished}
use aiokpl.Pipeline.{Progress}

-- A measure of records by their identity.
abbrev pub by_identity : (ℕ → ℕ) → Origin → ℕ
by_identity m o = m o.0

-- What a pipeline holds in all.
abbrev pub of_pipeline : (ℕ → ℕ) → Pipeline → ℕ
of_pipeline m p = of_stages (by_identity m) p + of_tasks (by_identity m) p.tasks

-- The stages are ready, and the pending table has the identity of each record that the pipeline
-- holds: by any measure of identities the two are the same.
pub record IsBalanced (cfg : Config) (threshold : ℕ) (p : Pipeline) : Type 0 where
  pub ready : IsReady cfg threshold p
  pub unique : IsDict p.pending
  pub balanced : (m : ℕ → ℕ) → of_pipeline m p ≡ of_keys m p.pending

-- How many records are pending.
abbrev pub one : ℕ → ℕ
one n = 1

only_self : (n : ℕ) → only n n ≡ 1
only_self n = rw ((nat_Eq.equal_iff n n).1 refl) refl

-- A task among others.
pub of_tasks-at :
    (w : Origin → ℕ) (before after : List (List Job)) (task : List Job)
    → of_tasks w (before ++ task ∷ after)
      ≡ of_tasks w before + total (of_job w) task + of_tasks w after
of_tasks-at w before after task =
    omega (arith, total-append (total (of_job w)) before (task ∷ after))

-- The number of records that a job finishes.
pub done-of_finished :
    (job : Job) (p : Pipeline) (r : Progress)
    → Accounts job p r
    → of_finished (by_identity one) job ≡ r.2
done-of_finished (acts (finish x result)) p r a = sym a.2
done-of_finished (acts (retry x)) p r a = sym a.2
done-of_finished (acts (invalidate seen_at shard)) p r a = sym a.2
done-of_finished (aggregate x) p r a = sym a.2
done-of_finished (limit batch) p r a = sym a.2
done-of_finished (dispatched call) p r a = sym a.2
done-of_finished flush_aggregator p r a = sym a.2
done-of_finished flush_limiter p r a = sym a.2
done-of_finished flush_collector p r a = sym a.2

-- The pending table through a job whose record, if it finishes one, is pending.
pub record Removes (job : Job) (p : Pipeline) (r : Progress) : Type 0 where
  pub unique : IsDict r.1.pending
  pub keys :
      (m : ℕ → ℕ) → of_keys m r.1.pending + of_finished (by_identity m) job ≡ of_keys m p.pending

same-Removes :
    (job : Job) (p : Pipeline) (r : Progress)
    → IsDict p.pending
    → r.1.pending ≡ p.pending
    → ((m : ℕ → ℕ) → of_finished (by_identity m) job ≡ 0)
    → Removes job p r
same-Removes job p r u e z = record { unique = rw e u; keys = λ m. rw e (omega (arith, z m)) }

finish-Removes :
    (x : BufferedRecord) (result : RecordResult) (v : ℕ) (p : Pipeline) (r : Progress)
    → IsDict p.pending
    → Dict.get x.identity p.pending ≡ some v
    → r.1.pending ≡ (on_retrier_finish x result p).pending
    → Removes (acts (finish x result)) p r
unfolding on_retrier_finish
finish-Removes x result v p r u found e = record {
  unique = rw e (remove-IsDict x.identity p.pending u);
  keys = λ m. rw e (of_keys-remove m x.identity v p.pending u found);
}

-- A record that a job is to finish is pending, if the table counts at least what the job does.
is_pending :
    (x : BufferedRecord) (result : RecordResult) (p : Pipeline)
    → IsDict p.pending
    → (rest : ℕ)
    → of_job (by_identity (only x.identity)) (acts (finish x result)) + rest
      ≡ of_keys (only x.identity) p.pending
    → (v : ℕ) × (Dict.get x.identity p.pending ≡ some v)
is_pending x result p u rest e = elim (Option-cases (Dict.get x.identity p.pending)) [
  | inl gone ↦
      absurd (
        omega
          (arith, e, of_keys-only x.identity p.pending u, ap counted gone, only_self x.identity))
  | inr found ↦ found
]

pub performed-Removes :
    (job : Job) (p : Pipeline) (r : Progress)
    → IsDict p.pending
    → ((m : ℕ → ℕ) → (rest : ℕ) × (of_job (by_identity m) job + rest ≡ of_keys m p.pending))
    → Accounts job p r
    → Removes job p r
performed-Removes (acts (finish x result)) p r u held a =
    let (rest, e) = held (only x.identity) in
    let (v, found) = is_pending x result p u rest e in finish-Removes x result v p r u found a.0
performed-Removes (acts (retry x)) p r u held a = same-Removes _ p r u a.0 (λ m. refl)
performed-Removes (acts (invalidate seen_at shard)) p r u held a =
    same-Removes _ p r u a.0 (λ m. refl)
performed-Removes (aggregate x) p r u held a = same-Removes _ p r u a.0 (λ m. refl)
performed-Removes (limit batch) p r u held a = same-Removes _ p r u a.0 (λ m. refl)
performed-Removes (dispatched call) p r u held a = same-Removes _ p r u a.0 (λ m. refl)
performed-Removes flush_aggregator p r u held a = same-Removes _ p r u a.0 (λ m. refl)
performed-Removes flush_limiter p r u held a = same-Removes _ p r u a.0 (λ m. refl)
performed-Removes flush_collector p r u held a = same-Removes _ p r u a.0 (λ m. refl)
