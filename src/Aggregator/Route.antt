-- ===== src/Aggregator/Route.antt =====
-- Records of different shards never share a batch: what `put_buffered` does to the reducer of the
-- predicted shard, and to the others.
use mathlib.Core.Path.{subst}
use mathlib.Core.List.{Perm}
use aiokpl.Common.{
  ℕ, ◌≡◌, refl, sym, ap, ◌∙◌, inl, inr, false, Bool-cases, Option, none, some, List, [], ◌∷◌, ◌++◌,
  flat_map, All,
}
use aiokpl.Common.Eq.{nat_Eq, option_Eq}
use aiokpl.Common.Dict
use aiokpl.Common.Dict.{Dict}
use aiokpl.Common.Result.{Result, ok, err, >>=-eq-ok}
use aiokpl.Batch.{BufferedRecord, AggregatedBatch, batch_ops}
use aiokpl.Batch.Undo.{batch_laws}
use aiokpl.Reducer.Split.{IsBuilt}
use aiokpl.Reducer.Run.{out, IsSendable, add-Conserves, new-IsBuilt}
use aiokpl.Reducer
use aiokpl.Reducer.{ReducerState, ReducerConfig, new_reducer, pack}
use aiokpl.ShardMap.{ShardMap}
use aiokpl.Aggregator.{
  AggregatorConfig, Aggregator, AggregatorError, reducer_config, existing_or_new,
  get_or_create_reducer, predicted_of, put_buffered,
}

-- The items that a reducer holds, if there is one.
abbrev pub held_in : Option (ReducerState AggregatedBatch) → List BufferedRecord
held_in none = []
held_in (some s) = s.active.items

abbrev pub held : Option ℕ → Aggregator → List BufferedRecord
held shard a = held_in (Dict.get shard a.reducers)

module _ (cfg : AggregatorConfig) where
  -- The active batch of the reducer for a shard is one of that shard, built by adding its items.
  abbrev pub IsOf : Option ℕ → ReducerState AggregatedBatch → Type 0
  IsOf shard s = IsBuilt (batch_ops shard) (reducer_config cfg) (batch_laws shard) s

  abbrev pub IsRouted : Aggregator → Type 0
  IsRouted a = All (λ p. IsOf p.0 p.1) a.reducers

  pub get-IsOf :
      (shard : Option ℕ) (d : Dict (Option ℕ) (ReducerState AggregatedBatch))
      (s : ReducerState AggregatedBatch)
      → All (λ p. IsOf p.0 p.1) d
      → Dict.get shard d ≡ some s
      → IsOf shard s
  unfolding Dict.get
  get-IsOf shard [] s h e = absurd (cc e)
  get-IsOf shard ((j, t) ∷ d) s h e = elim (Bool-cases (option_Eq.equal j shard)) [
    | inl same ↦
        let p : j ≡ shard = (option_Eq.equal_iff j shard).0 same in
        let q : t ≡ s = cc (rw same at e) in subst (λ i. IsOf i s) p (subst (λ u. IsOf j u) q h.0)
    | inr other ↦ get-IsOf shard d s h.1 (rw other at e)
  ]

  pub put-IsOf :
      (shard : Option ℕ) (s : ReducerState AggregatedBatch)
      (d : Dict (Option ℕ) (ReducerState AggregatedBatch))
      → IsOf shard s
      → All (λ p. IsOf p.0 p.1) d
      → All (λ p. IsOf p.0 p.1) (Dict.put shard s d)
  unfolding Dict.put
  put-IsOf shard s [] k h = (k, tt)
  put-IsOf shard s ((j, t) ∷ d) k h = elim (Bool-cases (option_Eq.equal j shard)) [
    | inl same ↦ rw same (subst (λ i. IsOf i s) (sym ((option_Eq.equal_iff j shard).0 same)) k, h.1)
    | inr other ↦ rw other (h.0, put-IsOf shard s d k h.1)
  ]

  held-put :
      (shard other : Option ℕ) (s : ReducerState AggregatedBatch)
      (d : Dict (Option ℕ) (ReducerState AggregatedBatch))
      → option_Eq.equal shard other ≡ false
      → held_in (Dict.get other (Dict.put shard s d)) ≡ held_in (Dict.get other d)
  held-put shard other s d e = rw (Dict.get-put shard other s d) (rw e refl)

  held-own :
      (shard : Option ℕ) (s : ReducerState AggregatedBatch)
      (d : Dict (Option ℕ) (ReducerState AggregatedBatch))
      → held_in (Dict.get shard (Dict.put shard s d)) ≡ s.active.items
  held-own shard s d =
      rw (Dict.get-put shard shard s d) (rw ((option_Eq.equal_iff shard shard).1 refl) refl)

  -- What is found or made: a reducer of the shard that holds what the aggregator held for it, in an
  -- aggregator that holds the same for another shard.
  abbrev IsFound :
      Option ℕ → Option ℕ → Aggregator → ReducerState AggregatedBatch × Aggregator → Type 0
  IsFound shard other a u =
      IsOf shard u.0
      × IsRouted u.1
      × (u.0.active.items ≡ held shard a)
      × (held other u.1 ≡ held other a)

  existing_or_new-IsFound :
      (shard other : Option ℕ) (a : Aggregator) (found : Option (ReducerState AggregatedBatch))
      (u : ReducerState AggregatedBatch × Aggregator)
      → option_Eq.equal shard other ≡ false
      → IsRouted a
      → Dict.get shard a.reducers ≡ found
      → existing_or_new cfg shard a found ≡ ok u
      → IsFound shard other a u
  unfolding existing_or_new
  existing_or_new-IsFound shard other a (some t) u apart h found e =
      subst
        (λ (r : Result AggregatorError (ReducerState AggregatedBatch × Aggregator)). elim r [
          | ok v ↦ IsFound shard other a v
          | err x ↦ Unit
        ])
        e (get-IsOf shard a.reducers t h found, h, sym (ap held_in found), refl)
  existing_or_new-IsFound shard other a none u apart h absent e = elim (Bool-cases a.entered) [
    | inl inside ↦
        let s = new_reducer (batch_ops shard) (reducer_config cfg) in
        let new = new-IsBuilt (batch_ops shard) (reducer_config cfg) (batch_laws shard) in
        subst
          (λ (r : Result AggregatorError (ReducerState AggregatedBatch × Aggregator)). elim r [
            | ok v ↦ IsFound shard other a v
            | err x ↦ Unit
          ])
          (rw inside at e)
          (
            new,
            put-IsOf shard s a.reducers new h,
            sym (ap held_in absent),
            held-put shard other s a.reducers apart,
          )
    | inr outside ↦ absurd (cc (rw outside at e))
  ]

  get_or_create-IsFound :
      (shard other : Option ℕ) (a : Aggregator) (u : ReducerState AggregatedBatch × Aggregator)
      → option_Eq.equal shard other ≡ false
      → IsRouted a
      → get_or_create_reducer cfg shard a ≡ ok u
      → IsFound shard other a u
  unfolding get_or_create_reducer
  get_or_create-IsFound shard other a u apart h e =
      existing_or_new-IsFound shard other a (Dict.get shard a.reducers) u apart h refl e

  -- What `put_buffered` gives for a record `x` of the shard: the batch that comes out, if one does,
  -- may be sent; it and the reducer of the shard have the items that the shard had, and `x`; what is
  -- held for another shard is the same.
  pub record Put (shard other : Option ℕ) (x : BufferedRecord) (a : Aggregator)
      (r : Option AggregatedBatch × Aggregator) : Type 0 where
    pub routed : IsRouted r.1
    pub sendable : All (IsSendable (batch_ops shard) (reducer_config cfg)) (out r.0)
    pub kept : Perm (flat_map (λ b. b.items) (out r.0) ++ held shard r.1) (held shard a ++ x ∷ [])
    pub same : held other r.1 ≡ held other a

  added-Put :
      (now : ℕ) (shard other : Option ℕ) (x : BufferedRecord) (a : Aggregator)
      (u : ReducerState AggregatedBatch × Aggregator)
      → option_Eq.equal shard other ≡ false
      → IsFound shard other a u
      → Put shard other x a (
        (Reducer.add (batch_ops shard) (reducer_config cfg) now x u.0).0,
        record u.1 {
          reducers =
              Dict.put shard
                (Reducer.add (batch_ops shard) (reducer_config cfg) now x u.0).1
                u.1.reducers;
        },
      )
  added-Put now shard other x a u apart (own, routed, items, others) =
      let added = Reducer.add (batch_ops shard) (reducer_config cfg) now x u.0 in
      let c =
        add-Conserves (batch_ops shard) (reducer_config cfg) (batch_laws shard) now x u.0 own in
      record {
        routed = put-IsOf shard added.1 u.1.reducers c.holds routed;
        sendable = c.sendable;
        kept = rw (held-own shard added.1 u.1.reducers, ← items) c.kept;
        same = held-put shard other added.1 u.1.reducers apart ∙ others;
      }

  -- Putting a record, in an aggregator whose reducers are of their shards, touches the reducer of the
  -- predicted shard only. A batch that comes out may be sent; it and that reducer have the items that
  -- the shard had and the record, once each; and the reducers are of their shards again.
  pub put_buffered-Put :
      (now : ℕ) (m : ShardMap) (other : Option ℕ) (x : BufferedRecord) (a : Aggregator)
      (r : Option AggregatedBatch × Aggregator)
      → option_Eq.equal (predicted_of cfg m x) other ≡ false
      → IsRouted a
      → put_buffered cfg now m x a ≡ ok r
      → Put (predicted_of cfg m x) other x a r
  unfolding put_buffered
  put_buffered-Put now m other x a r apart h e =
      let (u, found, rest) = >>=-eq-ok (get_or_create_reducer cfg (predicted_of cfg m x) a) _ e in
      subst
        (λ (q : Result AggregatorError (Option AggregatedBatch × Aggregator)). elim q [
          | ok v ↦ Put (predicted_of cfg m x) other x a v
          | err y ↦ Unit
        ])
        rest
        (added-Put now (predicted_of cfg m x) other x a u apart
          (get_or_create-IsFound (predicted_of cfg m x) other a u apart h found))
