-- ===== src/Aggregator/Contents.antt =====
-- What an aggregator holds in all, by any measure of its records, through each of its operations.
use mathlib.Core.List.{append-nil}
use aiokpl.Common.{
  Option-cases, ℕ, ◌+◌, ◌≡◌, refl, ap, inl, inr, true, Option, none, some, List, [], ◌∷◌, ◌++◌,
  arith, flat_map, All,
}
use aiokpl.Common.Total.{total, total-append, total-Perm, measured, in_all, in_all-put}
use aiokpl.Common.Eq.{nat_Eq, option_Eq}
use aiokpl.Common.Dict
use aiokpl.Common.Dict.{Dict}
use aiokpl.Common.Result.{ok}
use aiokpl.Batch.{BufferedRecord, AggregatedBatch, batch_ops}
use aiokpl.Batch.Undo.{batch_laws}
use aiokpl.Reducer.Run.{
  out, add-Conserves, flush-Conserves, fire-Conserves, new-IsBuilt, new-items, Conserves,
}
use aiokpl.Reducer
use aiokpl.Reducer.{ReducerState, ReducerConfig, new_reducer}
use aiokpl.ShardMap.{ShardMap}
use aiokpl.Aggregator.Route.{IsOf, IsRouted, get-IsOf, put-IsOf}
use aiokpl.Aggregator.{
  AggregatorConfig, Aggregator, reducer_config, existing_or_new, get_or_create_reducer,
  predicted_of, put_buffered, flush_each, flush, fire,
}

module _ (m : BufferedRecord → ℕ) where
  abbrev pub of_batch : AggregatedBatch → ℕ
  of_batch b = total m b.items

  abbrev pub of_reducer : ReducerState AggregatedBatch → ℕ
  of_reducer s = total m s.active.items

  abbrev pub of_aggregator : Aggregator → ℕ
  of_aggregator a = in_all of_reducer a.reducers

  -- A batch that may come out.
  abbrev pub of_out : Option AggregatedBatch → ℕ
  of_out b = measured of_batch b

  out-of_out : (b : Option AggregatedBatch) → total m (flat_map (λ b. b.items) (out b)) ≡ of_out b
  out-of_out none = refl
  out-of_out (some b) = omega (arith, total-append m b.items [])

  module _ (cfg : AggregatorConfig) where
    abbrev limits : ReducerConfig BufferedRecord AggregatedBatch
    limits = reducer_config cfg

    -- The measure through a step of a reducer.
    Conserves-measure :
        (shard : Option ℕ) (xs : List BufferedRecord) (b : Option AggregatedBatch)
        (s : ReducerState AggregatedBatch)
        → Conserves (batch_ops shard) limits (batch_laws shard) xs (out b) s
        → of_out b + of_reducer s ≡ total m xs
    Conserves-measure shard xs b s c = omega (
      arith,
      out-of_out b,
      total-append m (flat_map (λ b. b.items) (out b)) s.active.items,
      total-Perm m c.kept,
    )

    -- The reducer that is found or made, for an aggregator that is entered.
    record Found (shard : Option ℕ) (a : Aggregator) (found : Option (ReducerState AggregatedBatch))
        : Type 0 where
      pub reducer : ReducerState AggregatedBatch
      pub aggregator : Aggregator
      pub returns : existing_or_new cfg shard a found ≡ ok (reducer, aggregator)
      pub own : IsOf cfg shard reducer
      pub routed : IsRouted cfg aggregator
      pub inside : aggregator.entered ≡ true
      pub there : Dict.get shard aggregator.reducers ≡ some reducer
      pub same : of_aggregator aggregator ≡ of_aggregator a

    existing_or_new-Found :
        (shard : Option ℕ) (a : Aggregator) (found : Option (ReducerState AggregatedBatch))
        → a.entered ≡ true
        → IsRouted cfg a
        → Dict.get shard a.reducers ≡ found
        → Found shard a found
    unfolding existing_or_new
    existing_or_new-Found shard a (some s) e h g = record {
      reducer = s;
      aggregator = a;
      returns = refl;
      own = get-IsOf cfg shard a.reducers s h g;
      routed = h;
      inside = e;
      there = g;
      same = refl;
    }
    existing_or_new-Found shard a none e h g =
        let s = new_reducer (batch_ops shard) limits in
        let new = new-IsBuilt (batch_ops shard) limits (batch_laws shard) in
        record {
          reducer = s;
          aggregator = record a { reducers = Dict.put shard s a.reducers };
          returns = rw e refl;
          own = new;
          routed = put-IsOf cfg shard s a.reducers new h;
          inside = e;
          there =
              rw (Dict.get-put shard shard s a.reducers)
                (rw ((option_Eq.equal_iff shard shard).1 refl) refl);
          same = omega (
            arith,
            in_all-put of_reducer shard s a.reducers,
            ap (measured of_reducer) g,
            ap (total m) (new-items (batch_ops shard) limits (batch_laws shard)),
          );
        }

    -- What an operation leaves: the aggregator is entered and routed, and holds with what comes out
    -- what it should.
    pub record Leaves (before : ℕ) (b : Option AggregatedBatch) (a : Aggregator) : Type 0 where
      pub inside : a.entered ≡ true
      pub routed : IsRouted cfg a
      pub kept : of_out b + of_aggregator a ≡ before

    -- A reducer that is put back after a step.
    stepped-Leaves :
        (shard : Option ℕ) (xs : List BufferedRecord) (s s' : ReducerState AggregatedBatch)
        (b : Option AggregatedBatch) (a : Aggregator)
        → a.entered ≡ true
        → IsRouted cfg a
        → Dict.get shard a.reducers ≡ some s
        → Conserves (batch_ops shard) limits (batch_laws shard) (s.active.items ++ xs) (out b) s'
        → Leaves
            (total m xs + of_aggregator a)
            b
            (record a { reducers = Dict.put shard s' a.reducers })
    stepped-Leaves shard xs s s' b a e h g c = record {
      inside = e;
      routed = put-IsOf cfg shard s' a.reducers c.holds h;
      kept = omega (
        arith,
        in_all-put of_reducer shard s' a.reducers,
        ap (measured of_reducer) g,
        total-append m s.active.items xs,
        Conserves-measure shard (s.active.items ++ xs) b s' c,
      );
    }

    -- `put_buffered` returns, and the record is held or comes out.
    pub put_buffered-Leaves :
        (now : ℕ) (map_now : ShardMap) (x : BufferedRecord) (a : Aggregator)
        → a.entered ≡ true
        → IsRouted cfg a
        → (r : Option AggregatedBatch × Aggregator) × (put_buffered cfg now map_now x a ≡ ok r)
          × Leaves (m x + of_aggregator a) r.0 r.1
    unfolding put_buffered get_or_create_reducer
    put_buffered-Leaves now map_now x a e h =
        let shard = predicted_of cfg map_now x in
        let f = existing_or_new-Found shard a (Dict.get shard a.reducers) e h refl in
        let added = Reducer.add (batch_ops shard) limits now x f.reducer in
        let done =
          stepped-Leaves shard (x ∷ []) f.reducer added.1 added.0 f.aggregator f.inside f.routed
            f.there
            (add-Conserves (batch_ops shard) limits (batch_laws shard) now x f.reducer f.own) in
        (
          (
            added.0,
            record f.aggregator { reducers = Dict.put shard added.1 f.aggregator.reducers },
          ),
          rw f.returns refl,
          record {
            inside = done.inside;
            routed = done.routed;
            kept = omega (arith, done.kept, f.same);
          },
        )

    -- A fired timer loses nothing.
    pub fire-Leaves :
        (now : ℕ) (shard : Option ℕ) (scope : ℕ) (a : Aggregator)
        → a.entered ≡ true
        → IsRouted cfg a
        → Leaves (of_aggregator a) (fire cfg now shard scope a).0 (fire cfg now shard scope a).1
    unfolding fire
    fire-Leaves now shard scope a e h = elim (Option-cases (Dict.get shard a.reducers)) [
      | inl g ↦ rw (fire, g) record { inside = e; routed = h; kept = omega arith }
      | inr (s, g) ↦
          let fired = Reducer.fire (batch_ops shard) limits now scope s in
          let done = stepped-Leaves shard [] s fired.1 fired.0 a e h g (
            rw (append-nil s.active.items) (
              fire-Conserves (batch_ops shard) limits (batch_laws shard) now scope s
                (get-IsOf cfg shard a.reducers s h g))) in
          rw (fire, g)
            record { inside = done.inside; routed = done.routed; kept = omega (arith, done.kept) }
    ]

    -- The batches that a flush takes out and what is left.
    pub record Flushed (reducers : Dict (Option ℕ) (ReducerState AggregatedBatch))
        (r : List AggregatedBatch × Dict (Option ℕ) (ReducerState AggregatedBatch)) : Type 0 where
      pub routed : All (λ p. IsOf cfg p.0 p.1) r.1
      pub kept : total of_batch r.0 + in_all of_reducer r.1 ≡ in_all of_reducer reducers

    total-out :
        (b : Option AggregatedBatch) (bs : List AggregatedBatch)
        → total of_batch (elim b [ some x ↦ x ∷ bs | none ↦ bs ]) ≡ of_out b + total of_batch bs
    total-out none bs = omega arith
    total-out (some b) bs = refl

    flush_each-Flushed :
        (now : ℕ) (d : Dict (Option ℕ) (ReducerState AggregatedBatch))
        → All (λ p. IsOf cfg p.0 p.1) d
        → Flushed d (flush_each cfg now d)
    unfolding flush_each
    flush_each-Flushed now [] h = record { routed = tt; kept = refl }
    flush_each-Flushed now ((shard, s) ∷ d) h =
        let flushed = Reducer.flush (batch_ops shard) limits now s in
        let c = flush-Conserves (batch_ops shard) limits (batch_laws shard) now s h.0 in
        let rest = flush_each-Flushed now d h.1 in
        record {
          routed = (c.holds, rest.routed);
          kept = omega (
            arith,
            rest.kept,
            Conserves-measure shard s.active.items flushed.0 flushed.1 c,
            total-out flushed.0 (flush_each cfg now d).0,
          );
        }

    pub flush-Flushed :
        (now : ℕ) (a : Aggregator)
        → IsRouted cfg a
        → Flushed a.reducers ((flush cfg now a).0, (flush cfg now a).1.reducers)
          × ((flush cfg now a).1.entered ≡ a.entered)
    unfolding flush
    flush-Flushed now a h = (flush_each-Flushed now a.reducers h, refl)
