-- ===== src/Producer/Backpressure.antt =====
-- The counters of the producer agree with the records that its pipelines hold.
use mathlib.Core.Path.{subst}
use mathlib.Core.List.{Perm}
use aiokpl.Common.{
  ℕ, ◌+◌, ◌≡◌, ◌<◌, ◌↔◌, refl, ap, inl, inr, false, Bool-cases, Option, none, some, Option-cases,
  List, ◌∷◌, arith, ◌==◌, length,
}
use aiokpl.Common.Total.{measured, in_all, in_all-put, in_all-held}
use aiokpl.Common.Keys.{of_keys}
use aiokpl.Common.Eq.{nat_Eq, list_Eq}
use aiokpl.Common.Dict
use aiokpl.Common.Dict.{Dict, AllValues, get-AllValues, put-AllValues}
use aiokpl.Common.Result.{Result, ok, err}
use aiokpl.Aggregation.Types.{Bytes, Str, UserRecord}
use aiokpl.Reducer.Sort.{InOrder}
use aiokpl.Limiter.{Pending}
use aiokpl.Limiter.Drain.{due}
use aiokpl.ShardMap.{ShardMap, ShardMapConfig}
use aiokpl.Config.{Config}
use aiokpl.Pipeline.{submit, build_pipeline}
use aiokpl.Pipeline.Types.{Pipeline}
use aiokpl.Pipeline.Balance.{one}
use aiokpl.Pipeline.Settled.{Step-Stepped}
use aiokpl.Pipeline.System.{IsSound, Step-IsSound, new-IsSound}
use aiokpl.Pipeline.Step.{Step, submits}
use aiokpl.Producer.{
  Producer, new_producer, PutError, begin_put, give_up, enroll, release, get_or_create_pipeline,
  Turn, begins, builds, registers, refuses, works, Comes, start, later,
}

-- How many records of a stream have no result yet.
abbrev pub unresolved : Pipeline → ℕ
unresolved t = of_keys one t.pending

-- Over all streams.
abbrev pub all_unresolved : Producer → ℕ
all_unresolved p = in_all unresolved p.pipelines

module _ (cfg : Config) (map_cfg : ShardMapConfig) (threshold : ℕ) (md5 : Bytes → Bytes)
    (clock : ℕ → ℕ) (queue_add : List Pending → Pending → List Pending)
    (queue_of : List Pending → List Pending)
    (adds : (q : List Pending) (p : Pending)
      → InOrder due q
      → Perm (queue_add q p) (p ∷ q) × InOrder due (queue_add q p))
    (sorts : (q : List Pending) → Perm (queue_of q) q × InOrder due (queue_of q)) where
  abbrev pub IsSoundPipeline : Pipeline → Type 0
  IsSoundPipeline = IsSound cfg map_cfg threshold md5 clock queue_add queue_of adds sorts

  -- The permits that are out are those of the outstanding records, which are the calls that have not
  -- registered their outcome and the records without a result; and every pipeline is sound.
  pub record IsCounted (p : Producer) : Type 0 where
    pub capacity : p.permits + p.outstanding ≡ cfg.max_outstanding_records
    pub counts : p.outstanding ≡ p.starting + all_unresolved p
    pub sound : AllValues IsSoundPipeline p.pipelines

  begins-IsCounted :
      (key : Str) (p q : Producer) → begin_put key p ≡ ok (some q) → IsCounted p → IsCounted q
  unfolding begin_put
  begins-IsCounted key p q e h = elim (Bool-cases p.closed) [
    | inl c ↦ absurd (cc (rw c at e))
    | inr c ↦ elim (Bool-cases (length key == 0)) [
      | inl f ↦ absurd (cc (rw (c, f) at e))
      | inr f ↦ elim (Bool-cases (p.permits == 0)) [
        | inl z ↦ absurd (cc (rw (c, f, z) at e))
        | inr z ↦
            subst
              (λ (x : Result PutError (Option Producer)). elim x [
                | ok o ↦ elim o [ some v ↦ IsCounted v | none ↦ Unit ]
                | err raised ↦ Unit
              ])
              (rw (c, f, z) at e)
              record {
                capacity = ground (arith, h.capacity, z);
                counts = omega (arith, h.counts);
                sound = h.sound;
              }
      ]
    ]
  ]

  -- A pipeline that takes the place of the one of its stream.
  replaced :
      (stream : Str) (t u : Pipeline) (p : Producer)
      → Dict.get stream p.pipelines ≡ some t
      → in_all unresolved (Dict.put stream u p.pipelines) + unresolved t
        ≡ all_unresolved p + unresolved u
  replaced stream t u p found =
      omega (arith, in_all-put unresolved stream u p.pipelines, ap (measured unresolved) found)

  builds-IsCounted :
      (stream : Str) (m : ShardMap) (reads : ℕ) (p : Producer)
      → IsCounted p
      → IsCounted (get_or_create_pipeline cfg threshold stream m reads p)
  unfolding get_or_create_pipeline
  builds-IsCounted stream m reads p h = elim (Option-cases (Dict.get stream p.pipelines)) [
    | inl absent ↦
        let t = build_pipeline cfg threshold stream m reads in
        rw (get_or_create_pipeline, absent)
          record {
            capacity = h.capacity;
            counts = omega (
              arith,
              h.counts,
              in_all-put unresolved stream t p.pipelines,
              ap (measured unresolved) absent,
            );
            sound =
                put-AllValues IsSoundPipeline stream t p.pipelines
                  (new-IsSound cfg map_cfg threshold md5 clock queue_add queue_of adds sorts stream
                    m reads)
                  h.sound;
          }
    | inr (t, there) ↦ rw (get_or_create_pipeline, there) h
  ]

  registers-IsCounted :
      (stream : Str) (t u : Pipeline) (identity : ℕ) (r : UserRecord) (p : Producer)
      → 0 < p.starting
      → Dict.get stream p.pipelines ≡ some t
      → Dict.get identity t.pending ≡ none
      → submit cfg map_cfg threshold md5 clock queue_add queue_of identity r t ≡ ok u
      → IsCounted p
      → IsCounted (enroll stream u p)
  registers-IsCounted stream t u identity r p some_start found fresh e h =
      let sound = get-AllValues IsSoundPipeline stream t p.pipelines h.sound found in
      let st = submits identity r fresh e refl refl in
      let stepped =
        Step-Stepped cfg map_cfg threshold md5 clock queue_add queue_of adds sorts t u 1 0 st
          sound.balance in
      record {
        capacity = h.capacity;
        counts = omega (arith, h.counts, replaced stream t u p found, stepped.count, some_start);
        sound =
            put-AllValues IsSoundPipeline stream u p.pipelines
              (Step-IsSound cfg map_cfg threshold md5 clock queue_add queue_of adds sorts t u 1 0 st
                sound)
              h.sound;
      }

  refuses-IsCounted : (p : Producer) → 0 < p.starting → IsCounted p → IsCounted (give_up p)
  refuses-IsCounted p some_start h = record {
    capacity = omega (arith, h.capacity, h.counts, some_start);
    counts = omega (arith, h.counts, some_start);
    sound = h.sound;
  }

  works-IsCounted :
      (stream : Str) (t u : Pipeline) (done : ℕ) (p : Producer)
      → Dict.get stream p.pipelines ≡ some t
      → Step cfg map_cfg threshold md5 clock queue_add queue_of t 0 done u
      → IsCounted p
      → IsCounted (release stream u done p)
  works-IsCounted stream t u done p found st h =
      let sound = get-AllValues IsSoundPipeline stream t p.pipelines h.sound found in
      let stepped =
        Step-Stepped cfg map_cfg threshold md5 clock queue_add queue_of adds sorts t u 0 done st
          sound.balance in
      let enough = in_all-held unresolved stream t p.pipelines found in
      record {
        capacity = omega (arith, h.capacity, h.counts, stepped.count, enough);
        counts = omega (arith, h.counts, replaced stream t u p found, stepped.count);
        sound =
            put-AllValues IsSoundPipeline stream u p.pipelines
              (Step-IsSound cfg map_cfg threshold md5 clock queue_add queue_of adds sorts t u 0 done
                st sound)
              h.sound;
      }

  Turn-IsCounted :
      (p q : Producer)
      → Turn cfg map_cfg threshold md5 clock queue_add queue_of p q
      → IsCounted p
      → IsCounted q
  Turn-IsCounted p q (begins key e) h = begins-IsCounted key p q e h
  Turn-IsCounted p q (builds stream m reads e) h = rw e (builds-IsCounted stream m reads p h)
  Turn-IsCounted p q (registers stream t u identity r s found fresh e f) h =
      rw f (registers-IsCounted stream t u identity r p s found fresh e h)
  Turn-IsCounted p q (refuses stream t identity r raised s found e f) h =
      rw f (refuses-IsCounted p s h)
  Turn-IsCounted p q (works stream t u done found st f) h =
      rw f (works-IsCounted stream t u done p found st h)

  new-IsCounted : IsCounted (new_producer cfg)
  new-IsCounted = record { capacity = omega arith; counts = refl; sound = tt }

  Comes-IsCounted :
      {q : Producer}
      → Comes cfg map_cfg threshold md5 clock queue_add queue_of (new_producer cfg) q
      → IsCounted q
  Comes-IsCounted start = new-IsCounted
  Comes-IsCounted (later {q} {r} reach turn) = Turn-IsCounted q r turn (Comes-IsCounted reach)

  -- The tests of `begin_put` in turn.
  waits_iff :
      (key : Str) (q : Producer)
      → (begin_put key q ≡ ok none) ↔ ((q.closed ≡ false) × (0 < length key) × (q.permits ≡ 0))
  unfolding begin_put
  waits_iff key q = ground arith

  -- If no call of `put_record` fails once it has registered its outcome: whatever calls are made of a
  -- new producer, and whatever its pipelines do, its permits and its outstanding records are
  -- `max_outstanding_records` in all; the outstanding records are the calls that have not registered
  -- their outcome and the records without a result; and a call waits if and only if the producer is
  -- open, the partition key is not empty and that maximum is outstanding.
  pub Comes-IsBounded :
      (q : Producer) (key : Str)
      → Comes cfg map_cfg threshold md5 clock queue_add queue_of (new_producer cfg) q
      → (q.permits + q.outstanding ≡ cfg.max_outstanding_records)
        × (q.outstanding ≡ q.starting + all_unresolved q)
        × ((begin_put key q ≡ ok none) ↔ (
            (q.closed ≡ false) × (0 < length key) × (q.outstanding ≡ cfg.max_outstanding_records)))
  Comes-IsBounded q key reach =
      let h = Comes-IsCounted reach in
      let (waits, goes) = waits_iff key q in
      (
        h.capacity,
        h.counts,
        (
          (λ e.
              let (opened, full, spent) = waits e in
              (opened, full, omega (arith, h.capacity, spent))),
          (λ (opened, full, most). goes (opened, full, omega (arith, h.capacity, most))),
        ),
      )
