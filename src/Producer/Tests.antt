-- ===== src/Producer/Tests.antt =====
-- A producer with one permit and one call, and its theorem there.
use mathlib.Core.List.{Perm, perm_append_comm}
use mathlib.Core.List.Perm
use aiokpl.Common.{ℕ, ◌+◌, ◌≡◌, ◌<◌, ◌↔◌, refl, false, none, List, [], ◌∷◌, ◌++◌, length}
use aiokpl.Common.Eq.{list_Eq}
use aiokpl.Common.Result.{ok}
use aiokpl.Aggregation.Types.{Bytes}
use aiokpl.Reducer.Sort.{sorted, sorted-perm, sorted-InOrder, InOrder}
use aiokpl.ShardMap.{ShardMapConfig, new_shard_map}
use aiokpl.Limiter.{Pending}
use aiokpl.Limiter.Drain.{due}
use aiokpl.Config.{Config, default_config}
use aiokpl.Producer.{
  Producer, new_producer, begin_put, get_or_create_pipeline, Comes, begins, builds, start, later,
}
use aiokpl.Producer.Backpressure.{all_unresolved, Comes-IsBounded}

abbrev cfg : Config
cfg = record default_config { max_outstanding_records = 1 }

abbrev map_cfg : ShardMapConfig
map_cfg = record { min_backoff = 1; max_backoff = 8; closed_shard_ttl = 60 }

abbrev md5 : Bytes → Bytes
md5 message = 1 ∷ 2 ∷ []

abbrev clock : ℕ → ℕ
clock reads = 1000 + reads

abbrev queue_add : List Pending → Pending → List Pending
queue_add q p = sorted due (q ++ p ∷ [])

queue_adds :
    (q : List Pending) (p : Pending)
    → InOrder due q
    → Perm (queue_add q p) (p ∷ q) × InOrder due (queue_add q p)
queue_adds q p h = (
  Perm.trans (sorted-perm due (q ++ p ∷ [])) (perm_append_comm q (p ∷ [])),
  sorted-InOrder due (q ++ p ∷ []),
)

-- One call holds the permit, and its pipeline is there.
abbrev begun : Producer
begun = record (new_producer cfg) { permits = 0; outstanding = 1; starting = 1 }

built : Producer
unfolding get_or_create_pipeline
built = get_or_create_pipeline cfg 262144 (115 ∷ []) (new_shard_map map_cfg) 0 begun

built-Comes : Comes cfg map_cfg 262144 md5 clock queue_add (sorted due) (new_producer cfg) built
unfolding begin_put built
built-Comes =
    later (later start (begins (97 ∷ []) refl)) (builds (115 ∷ []) (new_shard_map map_cfg) 0 refl)

Comes-IsBounded_example :
    (built.permits + built.outstanding ≡ cfg.max_outstanding_records)
    × (built.outstanding ≡ built.starting + all_unresolved built)
    × ((begin_put (97 ∷ []) built ≡ ok none) ↔ (
        (built.closed ≡ false)
        × (0 < length {A = ℕ} (97 ∷ []))
        × (built.outstanding ≡ cfg.max_outstanding_records)))
Comes-IsBounded_example =
    Comes-IsBounded cfg map_cfg 262144 md5 clock queue_add (sorted due) queue_adds
      (λ q. (sorted-perm due q, sorted-InOrder due q)) built (97 ∷ []) built-Comes
