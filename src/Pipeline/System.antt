-- ===== src/Pipeline/System.antt =====
-- A pipeline at work, from its start: whatever happens in it, in any order.
use mathlib.Core.Path.{subst}
use mathlib.Core.List.{Perm}
use aiokpl.Common.{ℕ, ◌≡◌, refl, sym, ap, ◌∙◌, none, List, ◌∷◌, ◌++◌}
use aiokpl.Common.Keys.{of_keys-only, only, counted}
use aiokpl.Common.Eq.{nat_Eq}
use aiokpl.Common.Dict
use aiokpl.Common.Dict.{Dict}
use aiokpl.Common.Result.{Result, ok, err, >>=-eq-ok}
use aiokpl.Aggregation.Types.{Bytes, Str, UserRecord}
use aiokpl.Collector.{put_ops, collector_config}
use aiokpl.Collector.PerShard.{put_laws}
use aiokpl.Reducer.Run.{new-IsBuilt}
use aiokpl.Reducer.Sort.{InOrder}
use aiokpl.ShardMap.{ShardMap, ShardMapConfig}
use aiokpl.Limiter.{Pending}
use aiokpl.Limiter.Drain.{due}
use aiokpl.Retrier.{finish, retry, invalidate}
use aiokpl.Hashing.{HashError}
use aiokpl.Aggregator
use aiokpl.Config.{Config, aggregator_config}
use aiokpl.Pipeline.Stages.{Accounts, IsReady}
use aiokpl.Pipeline.Types.{
  Job, aggregate, limit, dispatched, acts, flush_aggregator, flush_limiter, flush_collector,
  Pipeline, PipelineError,
}
use aiokpl.Pipeline.Perform.{perform-Performed}
use aiokpl.Pipeline.Balance.{by_identity, of_pipeline, IsBalanced, one}
use aiokpl.Pipeline.Settled.{Step-Stepped}
use aiokpl.Pipeline.Jobs.{perform-Returned}
use aiokpl.Pipeline.Replies.{send_and_handle-Replied}
use aiokpl.Pipeline.Timers.{rounded, drain_tick-ok}
use aiokpl.Pipeline.Resolved.{
  Books, untouched, finished, registered, withdrawn, IsResolved, KeepsSet, Books-KeepsSet,
  Books-IsResolved,
}
use aiokpl.Pipeline.Step.{
  Step, performs, ends, answers, aggregator_fires, collector_fires, drains, refreshes, submits,
  flushes, cancels, Reaches, here, next,
}
use aiokpl.Pipeline.{
  Progress, perform, fire_aggregator, fire_collector, drain_tick, submit, cancel_outcome,
  build_pipeline,
}

-- What a job did to the table and the outcomes.
Accounts-Books :
    (job : Job) (p : Pipeline) (r : Progress) (q : Pipeline)
    → q.pending ≡ r.1.pending
    → q.outcomes ≡ r.1.outcomes
    → Accounts job p r
    → Books p q
Accounts-Books (acts (finish x result)) p r q d e a = finished x result (d ∙ a.0) (e ∙ a.1)
Accounts-Books (acts (retry x)) p r q d e a = untouched (d ∙ a.0) (e ∙ a.1)
Accounts-Books (acts (invalidate seen_at shard)) p r q d e a = untouched (d ∙ a.0) (e ∙ a.1)
Accounts-Books (aggregate x) p r q d e a = untouched (d ∙ a.0) (e ∙ a.1)
Accounts-Books (limit batch) p r q d e a = untouched (d ∙ a.0) (e ∙ a.1)
Accounts-Books (dispatched call) p r q d e a = untouched (d ∙ a.0) (e ∙ a.1)
Accounts-Books flush_aggregator p r q d e a = untouched (d ∙ a.0) (e ∙ a.1)
Accounts-Books flush_limiter p r q d e a = untouched (d ∙ a.0) (e ∙ a.1)
Accounts-Books flush_collector p r q d e a = untouched (d ∙ a.0) (e ∙ a.1)

module _ (cfg : Config) (map_cfg : ShardMapConfig) (threshold : ℕ) (md5 : Bytes → Bytes)
    (clock : ℕ → ℕ) (queue_add : List Pending → Pending → List Pending)
    (queue_of : List Pending → List Pending)
    (adds : (q : List Pending) (p : Pending)
      → InOrder due q
      → Perm (queue_add q p) (p ∷ q) × InOrder due (queue_add q p))
    (sorts : (q : List Pending) → Perm (queue_of q) q × InOrder due (queue_of q)) where
  abbrev Happens : Pipeline → ℕ → ℕ → Pipeline → Type 0
  Happens = Step cfg map_cfg threshold md5 clock queue_add queue_of

  drains-Books :
      (p q : Pipeline)
      → IsReady cfg threshold p
      → drain_tick cfg map_cfg threshold md5 clock queue_add queue_of p ≡ ok q
      → Books p q
  drains-Books p q h e =
      let (r, returned, done) =
        rounded cfg map_cfg threshold md5 clock queue_add queue_of adds sorts one p h in
      subst (λ (x : Result PipelineError Pipeline). elim x [ ok v ↦ Books p v | err raised ↦ Unit ])
        (sym (
            drain_tick-ok cfg map_cfg threshold md5 clock queue_add queue_of adds sorts p r
              returned)
          ∙ e)
        (untouched refl refl)

  submits-Books :
      (p q : Pipeline) (identity : ℕ) (r : UserRecord)
      → Dict.get identity p.pending ≡ none
      → submit cfg map_cfg threshold md5 clock queue_add queue_of identity r p ≡ ok q
      → Books p q
  unfolding submit
  submits-Books p q identity r fresh e =
      let (x, built, rest) =
        >>=-eq-ok (Aggregator.build_buffered (aggregator_config cfg) md5 (clock p.reads) identity r)
          _ e in
      subst (λ (y : Result HashError Pipeline). elim y [ ok v ↦ Books p v | err raised ↦ Unit ])
        rest (registered identity fresh refl refl)

  Step-Books :
      (p q : Pipeline) (new done : ℕ)
      → Happens p new done q
      → IsBalanced cfg threshold p
      → Books p q
  unfolding fire_aggregator fire_collector cancel_outcome
  Step-Books p q new done (performs before after job rest r te e n d same) b =
      let returned =
        perform-Returned cfg map_cfg threshold md5 clock queue_add queue_of adds sorts
          (by_identity one) job p r b.ready e in
      Accounts-Books job p r q (ap (λ u. u.pending) same) (ap (λ u. u.outcomes) same)
        returned.accounts
  Step-Books p q new done (ends before after te n d same) b = rw same (untouched refl refl)
  Step-Books p q new done (answers before after batch put_records r fe e n d same) b =
      let replied =
        send_and_handle-Replied cfg map_cfg threshold md5 clock queue_add queue_of adds sorts
          (record p { in_flight = before ++ after }) batch put_records r e in
      untouched (ap (λ u. u.pending) same ∙ replied.pending)
        (ap (λ u. u.outcomes) same ∙ replied.outcomes)
  Step-Books p q new done (aggregator_fires shard scope n d same) b = rw same (untouched refl refl)
  Step-Books p q new done (collector_fires scope n d same) b = rw same (untouched refl refl)
  Step-Books p q new done (drains e n d) b = drains-Books p q b.ready e
  Step-Books p q new done (refreshes m n d same) b = rw same (untouched refl refl)
  Step-Books p q new done (submits identity r fresh e n d) b = submits-Books p q identity r fresh e
  Step-Books p q new done (flushes n d same) b = rw same (untouched refl refl)
  Step-Books p q new done (cancels k n d same) b = rw same (withdrawn k refl refl)

  new-IsBalanced :
      (stream : Str) (m : ShardMap) (reads : ℕ)
      → IsBalanced cfg threshold (build_pipeline cfg threshold stream m reads)
  new-IsBalanced stream m reads = record {
    ready = record {
      aggregator_entered = refl;
      aggregator_routed = tt;
      limiter_entered = refl;
      limiter_ready = tt;
      collector_built =
          new-IsBuilt put_ops
            (collector_config cfg.collection_max_count cfg.collection_max_size threshold) put_laws;
    };
    unique = tt;
    balanced = λ k. refl;
  }

  -- What holds of a pipeline at work.
  pub record IsSound (p : Pipeline) : Type 0 where
    pub balance : IsBalanced cfg threshold p
    pub resolved : IsResolved p

  pub Step-IsSound : (p q : Pipeline) (new done : ℕ) → Happens p new done q → IsSound p → IsSound q
  Step-IsSound p q new done st h = record {
    balance =
        (Step-Stepped cfg map_cfg threshold md5 clock queue_add queue_of adds sorts p q new done st
          h.balance).balance;
    resolved = Books-IsResolved p q (Step-Books p q new done st h.balance) h.resolved;
  }

  pub new-IsSound :
      (stream : Str) (m : ShardMap) (reads : ℕ)
      → IsSound (build_pipeline cfg threshold stream m reads)
  new-IsSound stream m reads = record {
    balance = new-IsBalanced stream m reads;
    resolved = λ n o e. absurd (cc e);
  }

  abbrev pub Leads : Pipeline → Pipeline → Type 0
  Leads = Reaches cfg map_cfg threshold md5 clock queue_add queue_of

  pub Reaches-IsSound : (p : Pipeline) {q : Pipeline} → Leads p q → IsSound p → IsSound q
  Reaches-IsSound p here h = h
  Reaches-IsSound p (next {q} {r} {new} {done} reach st) h =
      Step-IsSound q r new done st (Reaches-IsSound p reach h)

  Reaches-KeepsSet :
      (p : Pipeline) {q : Pipeline} → Leads p q → IsSound p → KeepsSet p.outcomes q.outcomes
  Reaches-KeepsSet p here h n o e s = e
  Reaches-KeepsSet p (next {q} {r} {new} {done} reach st) h n o e s =
      Books-KeepsSet q r (Step-Books q r new done st (Reaches-IsSound p reach h).balance) n o
        (Reaches-KeepsSet p reach h n o e s) s

  -- Whatever happens in a new pipeline, with any order of its tasks and timers and any replies of the
  -- service: the records that its stages, its tasks and the batches in flight hold have the
  -- identities that are pending, each of them held exactly once; and every outcome that was made is
  -- set or is the pending one of a record.
  pub Reaches-IsAccounted :
      (stream : Str) (m : ShardMap) (reads : ℕ) (q : Pipeline)
      → Leads (build_pipeline cfg threshold stream m reads) q
      → ((n : ℕ) → of_pipeline (only n) q ≡ counted (Dict.get n q.pending)) × IsResolved q
  Reaches-IsAccounted stream m reads q reach =
      let h =
        Reaches-IsSound (build_pipeline cfg threshold stream m reads) reach
          (new-IsSound stream m reads) in
      ((λ n. h.balance.balanced (only n) ∙ of_keys-only n q.pending h.balance.unique), h.resolved)

  -- Whatever happens in a new pipeline, an outcome that is set is never changed by what happens later.
  pub Reaches-keeps_outcomes :
      (stream : Str) (m : ShardMap) (reads : ℕ) (p q : Pipeline)
      → Leads (build_pipeline cfg threshold stream m reads) p
      → Leads p q
      → KeepsSet p.outcomes q.outcomes
  Reaches-keeps_outcomes stream m reads p q reach later = Reaches-KeepsSet p later (
      Reaches-IsSound (build_pipeline cfg threshold stream m reads) reach
        (new-IsSound stream m reads))

  -- Whatever happened in a new pipeline, of records whose texts have no lone surrogate: every call that
  -- a task makes of a stage or of a callback has a result, so that none fails because a stage was not
  -- entered or by an error of a token bucket, and so has every round of the limiter's drain task. The
  -- send of a batch is not one of these calls.
  pub Reaches-perform-ok :
      (stream : Str) (m : ShardMap) (reads : ℕ) (q : Pipeline) (job : Job)
      → Leads (build_pipeline cfg threshold stream m reads) q
      → ((r : Progress) × (perform cfg map_cfg threshold md5 clock queue_add queue_of job q ≡ ok r))
        × ((r : Pipeline) × (drain_tick cfg map_cfg threshold md5 clock queue_add queue_of q
              ≡ ok r))
  Reaches-perform-ok stream m reads q job reach =
      let h =
        Reaches-IsSound (build_pipeline cfg threshold stream m reads) reach
          (new-IsSound stream m reads) in
      let (r, returned, rest) =
        rounded cfg map_cfg threshold md5 clock queue_add queue_of adds sorts one q
          h.balance.ready in
      let done =
        perform-Performed (by_identity one) cfg map_cfg threshold md5 clock queue_add queue_of adds
          sorts job q h.balance.ready in
      (
        (done.progress, done.returns),
        (
          _,
          drain_tick-ok cfg map_cfg threshold md5 clock queue_add queue_of adds sorts q r returned,
        ),
      )
