-- ===== src/Pipeline/Settled.antt =====
-- Every step keeps the balance of a pipeline, and changes the number of pending records by those
-- that it registers and those that it finishes.
use mathlib.Core.Path.{subst}
use mathlib.Core.List.{Perm}
use aiokpl.Common.{ℕ, ◌+◌, ◌≡◌, refl, ap, none, some, List, [], ◌∷◌, ◌++◌, arith, length}
use aiokpl.Common.Keys.{of_keys-put}
use aiokpl.Common.Eq.{nat_Eq}
use aiokpl.Common.Dict
use aiokpl.Common.Dict.{Dict, IsDict, put-IsDict}
use aiokpl.Common.Result.{Result, ok, err, >>=-eq-ok}
use aiokpl.Aggregation.Types.{Bytes, UserRecord}
use aiokpl.Batch.{BufferedRecord}
use aiokpl.Outcome.{new_outcome}
use aiokpl.Hashing.{HashError, md5_hash_key, parse_explicit_hash_key}
use aiokpl.Reducer.Sort.{InOrder}
use aiokpl.ShardMap.{ShardMapConfig}
use aiokpl.Limiter.{Pending}
use aiokpl.Limiter.Drain.{due}
use aiokpl.Aggregator
use aiokpl.Config.{Config, aggregator_config}
use aiokpl.Pipeline.Stages.{same-IsReady}
use aiokpl.Pipeline.Types.{aggregate, Pipeline}
use aiokpl.Pipeline.Balance.{by_identity, IsBalanced, one}
use aiokpl.Pipeline.Step.{
  Step, performs, ends, answers, aggregator_fires, collector_fires, drains, refreshes, submits,
  flushes, cancels,
}
use aiokpl.Pipeline.{submit}
use aiokpl.Pipeline.Stepped.{
  Stepped, with_task, ends-Stepped, refreshes-Stepped, flushes-Stepped, cancels-Stepped,
}
use aiokpl.Pipeline.Jobs.{performs-Stepped}
use aiokpl.Pipeline.Replies.{answers-Stepped}
use aiokpl.Pipeline.Timers.{aggregator-Stepped, collector-Stepped, drains-Stepped}

module _ (cfg : Config) (map_cfg : ShardMapConfig) (threshold : ℕ) (md5 : Bytes → Bytes)
    (clock : ℕ → ℕ) (queue_add : List Pending → Pending → List Pending)
    (queue_of : List Pending → List Pending)
    (adds : (q : List Pending) (p : Pending)
      → InOrder due q
      → Perm (queue_add q p) (p ∷ q) × InOrder due (queue_add q p))
    (sorts : (q : List Pending) → Perm (queue_of q) q × InOrder due (queue_of q)) where
  identity-build_buffered :
      (now identity : ℕ) (r : UserRecord) (x : BufferedRecord)
      → Aggregator.build_buffered (aggregator_config cfg) md5 now identity r ≡ ok x
      → x.identity ≡ identity
  unfolding Aggregator.build_buffered
  identity-build_buffered now identity r x e =
      let (key, found, rest) =
        >>=-eq-ok
          (elim r.explicit_hash_key [
            | some text ↦ parse_explicit_hash_key text
            | none ↦ ok (md5_hash_key md5 r.partition_key)
          ])
          _ e in
      cc (rest)

  submits-Stepped :
      (p q : Pipeline) (identity : ℕ) (r : UserRecord)
      → IsBalanced cfg threshold p
      → Dict.get identity p.pending ≡ none
      → submit cfg map_cfg threshold md5 clock queue_add queue_of identity r p ≡ ok q
      → Stepped cfg threshold p 1 0 q
  unfolding submit
  submits-Stepped p q identity r b fresh e =
      let (x, built, rest) =
        >>=-eq-ok (Aggregator.build_buffered (aggregator_config cfg) md5 (clock p.reads) identity r)
          _ e in
      let q' = record p {
        pending = Dict.put identity (length p.outcomes) p.pending;
        outcomes = p.outcomes ++ new_outcome ∷ [];
        tasks = p.tasks ++ (aggregate x ∷ []) ∷ [];
        reads = p.reads + 1;
      } in
      let keys = λ (m : ℕ → ℕ). of_keys-put m identity (length p.outcomes) p.pending fresh in
      let same = identity-build_buffered (clock p.reads) identity r x built in
      subst
        (λ (y : Result HashError Pipeline). elim y [
          | ok v ↦ Stepped cfg threshold p 1 0 v
          | err raised ↦ Unit
        ])
        rest
        record {
          balance = record {
            ready = same-IsReady cfg threshold p q' b.ready refl refl refl;
            unique = put-IsDict identity (length p.outcomes) p.pending b.unique;
            balanced = λ m. omega (
              arith,
              b.balanced m,
              keys m,
              with_task (by_identity m) p.tasks (aggregate x ∷ []),
              ap m same,
            );
          };
          count = omega (arith, keys one);
        }

  -- Every step keeps the balance.
  pub Step-Stepped :
      (p q : Pipeline) (new done : ℕ)
      → Step cfg map_cfg threshold md5 clock queue_add queue_of p new done q
      → IsBalanced cfg threshold p
      → Stepped cfg threshold p new done q
  Step-Stepped p q new done (performs before after job rest r te e n d same) b =
      rw (n, d, same)
        (performs-Stepped cfg map_cfg threshold md5 clock queue_add queue_of adds sorts p before
          after job rest r b te e)
  Step-Stepped p q new done (ends before after te n d same) b =
      rw (n, d, same) (ends-Stepped cfg threshold p before after b te)
  Step-Stepped p q new done (answers before after batch put_records r fe e n d same) b =
      rw (n, d, same)
        (answers-Stepped cfg map_cfg threshold md5 clock queue_add queue_of adds sorts p before
          after batch put_records r b fe e)
  Step-Stepped p q new done (aggregator_fires shard scope n d same) b =
      rw (n, d, same)
        (aggregator-Stepped cfg map_cfg threshold md5 clock queue_add queue_of adds sorts p shard
          scope b)
  Step-Stepped p q new done (collector_fires scope n d same) b =
      rw (n, d, same)
        (collector-Stepped cfg map_cfg threshold md5 clock queue_add queue_of adds sorts p scope b)
  Step-Stepped p q new done (drains e n d) b =
      rw (n, d)
        (drains-Stepped cfg map_cfg threshold md5 clock queue_add queue_of adds sorts p q b e)
  Step-Stepped p q new done (refreshes m n d same) b =
      rw (n, d, same) (refreshes-Stepped cfg threshold p m b)
  Step-Stepped p q new done (submits identity r fresh e n d) b =
      rw (n, d) (submits-Stepped p q identity r b fresh e)
  Step-Stepped p q new done (flushes n d same) b =
      rw (n, d, same) (flushes-Stepped cfg threshold p b)
  Step-Stepped p q new done (cancels k n d same) b =
      rw (n, d, same) (cancels-Stepped cfg threshold p k b)
