-- ===== src/CloudWatch/Tests.antt =====
-- The CloudWatch sink at concrete inputs.
use aiokpl.Common.{ℕ, ◌≡◌, refl, some, List, [], ◌∷◌, map, length}
use aiokpl.Metrics.Types.{MetricSnapshot}
use aiokpl.Metrics.Texts.{shard_dimension, all_errors}
use aiokpl.CloudWatch.{
  SinkOp, opens, closes, exports, new_sink, snapshot_to_datum, chunks, run, dimension_name,
}
use aiokpl.Common.Dict
use aiokpl.CloudWatch.Chunks.{Delivers, run-Delivers}

abbrev errors_total : ℕ → MetricSnapshot
errors_total n = record {
  name = all_errors;
  count = 1;
  sum = n;
  min = some n;
  max = some n;
  dimensions = (shard_dimension, 49 ∷ []) ∷ (110 ∷ [], 50 ∷ []) ∷ [];
  window_start = 0;
  window_end = 60;
}

-- The first export comes too early.
abbrev ops : List SinkOp
ops =
    exports (errors_total 1 ∷ [])
    ∷ closes
    ∷ opens
    ∷ exports (errors_total 2 ∷ errors_total 3 ∷ [])
    ∷ exports []
    ∷ closes
    ∷ exports (errors_total 4 ∷ [])
    ∷ []

run-Delivers_example :
    Delivers
      (97 ∷ [])
      (map snapshot_to_datum (errors_total 2 ∷ errors_total 3 ∷ []))
      (run ops (new_sink (97 ∷ []))).0
run-Delivers_example = run-Delivers (97 ∷ []) ops

-- The dimension of the shard is renamed, another one is kept.
renamed_dimension : dimension_name shard_dimension ≡ 83 ∷ 104 ∷ 97 ∷ 114 ∷ 100 ∷ 73 ∷ 100 ∷ []
unfolding dimension_name Dict.get
renamed_dimension = refl

kept_dimension : dimension_name (110 ∷ []) ≡ 110 ∷ []
unfolding dimension_name Dict.get
kept_dimension = refl

-- Five datums in chunks of two.
chunk_lengths :
    map length
      (chunks 2 5 (map (λ n. snapshot_to_datum (errors_total n)) (1 ∷ 2 ∷ 3 ∷ 4 ∷ 5 ∷ [])) 0)
    ≡ 2 ∷ 2 ∷ 1 ∷ []
unfolding chunks
chunk_lengths = refl
