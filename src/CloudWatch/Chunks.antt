-- ===== src/CloudWatch/Chunks.antt =====
-- The requests of the CloudWatch sink against the snapshots that it was given.
use aiokpl.Common.{
  ℕ, zero, suc, ◌+◌, ◌≤◌, ◌<◌, ◌≡◌, refl, sym, ap, ◌∙◌, inl, inr, Bool, true, false, List, [], ◌∷◌,
  ◌++◌, map, length, take, drop, length-drop, All, All-append, flat_map, flat_map-append, arith,
  ltb, if◌then◌else◌, ltb→lt, ltb→le, Bool-cases,
}
use mathlib.Core.Path.{subst}
use mathlib.Core.List.{map-append}
use aiokpl.Common.Result.{ok, err}
use aiokpl.Aggregation.Types.{Str}
use aiokpl.Metrics.Types.{MetricSnapshot}
use aiokpl.CloudWatch.{
  batch_limit, Datum, PutMetricData, CloudWatchSink, snapshot_to_datum, chunks, put_chunks,
  export_snapshots, new_sink, open_sink, close_sink, or_same, not_entered, SinkOp, opens, closes,
  exports, run,
}

module _ {ℓ} {A : Type ℓ} where
  take-drop : (n : ℕ) (xs : List A) → take n xs ++ drop n xs ≡ xs
  take-drop zero xs = refl
  take-drop (suc n) [] = refl
  take-drop (suc n) (x ∷ xs) = ap (◌∷◌ x) (take-drop n xs)

  drop_nil : (n : ℕ) → drop {A = A} n [] ≡ []
  drop_nil zero = refl
  drop_nil (suc n) = refl

  drop_add : (i n : ℕ) (xs : List A) → drop n (drop i xs) ≡ drop (i + n) xs
  drop_add zero n xs = let e : n ≡ 0 + n = omega arith in ap (λ m. drop m xs) e
  drop_add (suc i) n [] = drop_nil n ∙ sym (drop_nil (suc i + n))
  drop_add (suc i) n (x ∷ xs) =
      let e : suc (i + n) ≡ suc i + n = omega arith in drop_add i n xs ∙ ap (λ m. drop m (x ∷ xs)) e

  drop_all : (i : ℕ) (xs : List A) → length xs ≤ i → drop i xs ≡ []
  drop_all zero [] h = refl
  drop_all zero (x ∷ xs) h = absurd (omega (arith, h))
  drop_all (suc i) [] h = refl
  drop_all (suc i) (x ∷ xs) h = drop_all i xs (omega (arith, h))

  length-take_le : (n : ℕ) (xs : List A) → length (take n xs) ≤ n
  length-take_le zero xs = omega arith
  length-take_le (suc n) [] = omega arith
  length-take_le (suc n) (x ∷ xs) = omega (arith, length-take_le n xs)

  length-take_pos : (n : ℕ) (xs : List A) → 0 < n → 0 < length xs → 0 < length (take n xs)
  length-take_pos zero xs h k = omega (arith, h)
  length-take_pos (suc n) [] h k = omega (arith, k)
  length-take_pos (suc n) (x ∷ xs) h k = omega arith

module _ (limit : ℕ) (datums : List Datum) (some_limit : 0 < limit) where
  -- A chunk is not empty and within the limit.
  abbrev IsChunk : List Datum → Type 0
  IsChunk chunk = (0 < length chunk) × (length chunk ≤ limit)

  chunks_lem :
      (fuel i : ℕ)
      → length datums ≤ i + fuel
      → (flat_map (λ c. c) (chunks limit fuel datums i) ≡ drop i datums)
        × All IsChunk (chunks limit fuel datums i)
  unfolding chunks
  chunks_lem zero i h = (sym (drop_all i datums (omega (arith, h))), tt)
  chunks_lem (suc fuel) i h = elim (Bool-cases (ltb i (length datums))) [
    | inl within ↦
        let (joined, each) = chunks_lem fuel (i + limit) (omega (arith, h, some_limit)) in
        rw within (
          ap (◌++◌ (take limit (drop i datums))) (joined ∙ sym (drop_add i limit datums))
              ∙ take-drop limit (drop i datums),
          (
            (
              length-take_pos limit (drop i datums) some_limit
                  (omega (arith, ltb→lt i (length datums) within, length-drop i datums)),
              length-take_le limit (drop i datums),
            ),
            each,
          ),
        )
    | inr over ↦ rw over (sym (drop_all i datums (ltb→le i (length datums) over)), tt)
  ]

-- A request that the service takes: within the limit, not empty, and for this namespace.
pub record IsRequest (namespace : Str) (request : PutMetricData) : Type 0 where
  same_namespace : request.namespace ≡ namespace
  some_data : 0 < length request.metric_data
  within : length request.metric_data ≤ batch_limit

-- The requests are what `data` says, in order.
abbrev pub Delivers : Str → List Datum → List PutMetricData → Type 0
Delivers namespace data' requests =
    (flat_map (λ r. r.metric_data) requests ≡ data') × All (IsRequest namespace) requests

requests_of :
    (namespace : Str) (cs : List (List Datum))
    → All (λ c. (0 < length c) × (length c ≤ batch_limit)) cs
    → Delivers namespace
        (flat_map (λ c. c) cs)
        (map (λ chunk. record { namespace = namespace; metric_data = chunk }) cs)
requests_of namespace [] h = (refl, tt)
requests_of namespace (c ∷ cs) (h, hs) =
    let (joined, each) = requests_of namespace cs hs in
    (ap (◌++◌ c) joined, (record { same_namespace = refl; some_data = h.0; within = h.1 }, each))

export-Delivers :
    (s : CloudWatchSink) (xs : List MetricSnapshot)
    → s.client ≡ true
    → Delivers s.namespace (map snapshot_to_datum xs) (export_snapshots xs s)
unfolding export_snapshots put_chunks
export-Delivers s [] h = (refl, tt)
export-Delivers s (x ∷ xs) h =
    let datums = map snapshot_to_datum (x ∷ xs) in
    let (joined, each) =
      chunks_lem batch_limit datums (omega arith) (length datums) 0 (omega arith) in
    let (sent, taken) =
      requests_of s.namespace (chunks batch_limit (length datums) datums 0) each in
    rw h (sent ∙ joined, taken)

export-closed :
    (s : CloudWatchSink) (xs : List MetricSnapshot) → s.client ≡ false → export_snapshots xs s ≡ []
unfolding export_snapshots
export-closed s [] h = refl
export-closed s (x ∷ xs) h = rw h refl

-- The snapshots that are given to the sink while it is open, by the calls alone.
abbrev pub accepted : Bool → List SinkOp → List MetricSnapshot
accepted is_open [] = []
accepted is_open (opens ∷ ops) = accepted true ops
accepted is_open (closes ∷ ops) = accepted false ops
accepted true (exports xs ∷ ops) = xs ++ accepted true ops
accepted false (exports xs ∷ ops) = accepted false ops

-- Both fields say whether the sink is open.
abbrev IsOpenAs : Bool → CloudWatchSink → Type 0
IsOpenAs is_open s = (s.client ≡ is_open) × (s.client_ctx ≡ is_open)

close-open :
    (s : CloudWatchSink)
    → s.client_ctx ≡ true
    → or_same s (close_sink s) ≡ record s { client = false; client_ctx = false }
close-open s h = rw h refl

close-closed : (s : CloudWatchSink) → s.client_ctx ≡ false → or_same s (close_sink s) ≡ s
close-closed s h =
    ap
      (λ b.
        or_same s
          (if b then ok (record s { client = false; client_ctx = false }) else err not_entered))
      h

after_close :
    (s : CloudWatchSink) {q : CloudWatchSink} (is_open : Bool) (ops : List SinkOp)
    → q ≡ or_same s (close_sink s)
    → Delivers s.namespace (map snapshot_to_datum (accepted is_open ops)) (run ops q).0
    → Delivers s.namespace (map snapshot_to_datum (accepted is_open ops)) (run (closes ∷ ops) s).0
unfolding run
after_close s is_open ops e d =
    subst (λ x. Delivers s.namespace (map snapshot_to_datum (accepted is_open ops)) (run ops x).0) e
      d

run_lem :
    (is_open : Bool) (ops : List SinkOp) (s : CloudWatchSink)
    → IsOpenAs is_open s
    → Delivers s.namespace (map snapshot_to_datum (accepted is_open ops)) (run ops s).0
unfolding run
run_lem is_open [] s h = (refl, tt)
run_lem is_open (opens ∷ ops) s h = run_lem true ops (open_sink s) (refl, refl)
run_lem true (closes ∷ ops) s h =
    after_close s false ops (sym (close-open s h.1))
      (run_lem false ops (record s { client = false; client_ctx = false }) (refl, refl))
run_lem false (closes ∷ ops) s h =
    after_close s false ops (sym (close-closed s h.1)) (run_lem false ops s h)
run_lem true (exports xs ∷ ops) s h =
    let (own, taken) = export-Delivers s xs h.0 in
    let (later, rest) = run_lem true ops s h in
    (
      flat_map-append (λ r. r.metric_data) (export_snapshots xs s) (run ops s).0
          ∙ ap (λ a. a ++ flat_map (λ r. r.metric_data) (run ops s).0) own
          ∙ ap (◌++◌ (map snapshot_to_datum xs)) later
          ∙ sym (map-append snapshot_to_datum xs (accepted true ops)),
      All-append (IsRequest s.namespace) (export_snapshots xs s) (run ops s).0 taken rest,
    )
run_lem false (exports xs ∷ ops) s h = rw (export-closed s xs h.0) (run_lem false ops s h)

-- In any sequence of calls of a new sink, entered and left any number of times, the requests carry
-- the datum of each snapshot that was exported while the sink was entered, once and in order, and of
-- no other; each request is for the sink's namespace and has 1 datum at least and 1000 at most.
pub run-Delivers :
    (namespace : Str) (ops : List SinkOp)
    → Delivers namespace
        (map snapshot_to_datum (accepted false ops))
        (run ops (new_sink namespace)).0
run-Delivers namespace ops = run_lem false ops (new_sink namespace) (refl, refl)
