-- ===== src/Metrics/Tests.antt =====
-- Metrics at concrete inputs.
use aiokpl.Common.{ℕ, ◌*◌, ◌≤◌, ◌≡◌, refl, true, none, some, List, [], ◌∷◌, arith}
use aiokpl.Common.Dict
use aiokpl.Metrics.Types.{summary, detailed, MetricKey, MetricKey_Eq, dimensions}
use aiokpl.Metrics.Texts.{all_errors, stream_dimension}
use aiokpl.Metrics.Window.{
  new_accumulator, evict, put_last, observe, record_value, stats, window_bounds,
}
use aiokpl.Metrics.Live.{Call, puts, asks, IsMonotone, observed, stats-run}
use aiokpl.Metrics.Summary.{live, reference}
use aiokpl.Metrics.Live
use aiokpl.Metrics.Export.{ManagerCall, start, snapshot-run}
use aiokpl.Metrics.Export
use aiokpl.Metrics.Sink.{Exits, entered_session, leave-run}
use aiokpl.Metrics.{new_manager, snapshot}
use aiokpl.Metrics.Registry.{history}

abbrev calls : List Call
calls =
    puts 1000000 5
    ∷ puts 1500000 3
    ∷ asks 2000000
    ∷ puts 30000000 9
    ∷ asks 60000000
    ∷ puts 61200000 4
    ∷ []

-- At second 61 the two values of second 1 are gone.
live_window : live 60 61500000 (observed calls) ≡ 9 ∷ 4 ∷ []
live_window = refl

stats-run_example :
    (stats 61500000 (Live.run calls (new_accumulator 60))).0
    ≡ reference (live 60 61500000 (observed calls))
stats-run_example = stats-run 60 0 61500000 calls (
  omega arith,
  (omega arith, (omega arith, (omega arith, (omega arith, (omega arith, omega arith))))),
)

window_bounds-run : window_bounds (Live.run calls (new_accumulator 60)).buckets ≡ (30, 62)
unfolding window_bounds Live.run record_value stats evict put_last observe
window_bounds-run = refl

abbrev ticks : ℕ → ℕ
ticks n = n * 20000000

abbrev errors : MetricKey
errors = record { name = all_errors; stream = some (115 ∷ []); shard_id = none; error_code = none }

abbrev errors_of_shard : MetricKey
errors_of_shard = record errors { shard_id = some (49 ∷ []) }

abbrev manager_calls : List ManagerCall
manager_calls =
    Export.puts 1 errors
    ∷ Export.puts 2 errors_of_shard
    ∷ Export.flushes
    ∷ Export.takes
    ∷ Export.puts 7 errors
    ∷ []

snapshot-run_example :
    let s = Export.run ticks manager_calls (start 0 (new_manager summary true)) in
    (at : ℕ) × (s.reads ≤ at)
    × (at ≤ (snapshot ticks s.reads s.manager).2)
    × (Dict.get errors (snapshot ticks s.reads s.manager).0
        ≡ reference (live 60 (ticks at) (history errors s.log)))
snapshot-run_example = snapshot-run ticks (λ i j h. omega arith) summary true 0 manager_calls errors

leave-run_example :
    Exits ticks detailed (Export.run ticks manager_calls (entered_session detailed true 0))
leave-run_example = leave-run ticks true 0 manager_calls detailed

dimensions_stream : dimensions errors ≡ (stream_dimension, 115 ∷ []) ∷ []
unfolding dimensions
dimensions_stream = refl
