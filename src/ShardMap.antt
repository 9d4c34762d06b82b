-- ===== src/ShardMap.antt =====
-- aiokpl/shard_map.py: `ShardMap`, the cached shard list. The state holds what the task group was
-- asked to run: a scope is the number of its task, and the refresh loop and the cleanup are
-- operations. Times are whole numbers.
pub mod Types
pub mod Parse
pub mod Bisect
pub mod Fetch
pub mod Unique
pub mod Listed
pub mod Predict
pub mod Install
pub mod Invalidate
pub mod Refresh
mod Tests
use aiokpl.Common.{
  ℕ, zero, suc, ◌+◌, ◌*◌, min, Bool, true, false, not, ◌&&◌, ◌||◌, Option, none, some, List, [],
  ◌∷◌, ◌++◌, ltb, leb, ◌==◌, if◌then◌else◌, get_elem?, length, map,
}
use aiokpl.Common.Eq.{Eq, nat_Eq}
use aiokpl.Common.Dict
use aiokpl.Common.Dict.{Dict}
use aiokpl.Common.Result.{Result, ok, err}
use aiokpl.ShardMap.Types.{
  ShardMapState, invalid, updating, ready, Shard, Snapshot, Answer, FetchError,
}
use aiokpl.ShardMap.Bisect.{bisect_left}
use aiokpl.ShardMap.Fetch.{fetch_all_pages}

pub record ShardMapConfig : Type 0 where
  pub min_backoff : ℕ
  pub max_backoff : ℕ
  pub closed_shard_ttl : ℕ

pub record ShardMap : Type 0 where
  pub state : ShardMapState
  pub snapshot : Snapshot
  pub closed_at : Dict ℕ ℕ
  pub updated_at : Option ℕ
  pub backoff : ℕ
  pub refresh_done : Bool
  pub refresh_in_flight : Bool
  pub cleanup_scope : Option ℕ
  pub refresh_scope : Option ℕ
  pub closed : Bool
  pub spawned : ℕ
  pub cancelled : List ℕ

abbrev pub no_snapshot : Snapshot
no_snapshot = record { endings = []; shard_ids = []; shards = [] }

abbrev pub new_shard_map : ShardMapConfig → ShardMap
new_shard_map cfg = record {
  state = invalid;
  snapshot = no_snapshot;
  closed_at = [];
  updated_at = none;
  backoff = cfg.min_backoff;
  refresh_done = false;
  refresh_in_flight = false;
  cleanup_scope = none;
  refresh_scope = none;
  closed = false;
  spawned = 0;
  cancelled = [];
}

-- `state is READY` and `state is UPDATING`
abbrev pub is_ready : ShardMapState → Bool
is_ready ready = true
is_ready _ = false

abbrev pub is_updating : ShardMapState → Bool
is_updating updating = true
is_updating _ = false

-- `predict`
unfoldable pub predict : ℕ → ShardMap → Option ℕ
unfolding bisect_left
predict hash_key m =
    let idx = bisect_left m.snapshot.endings hash_key in
    if is_ready m.state
    then (if idx == length m.snapshot.endings then none else get_elem? m.snapshot.shard_ids idx)
    else none

-- `hashrange`
unfoldable pub hashrange : ℕ → ShardMap → Option (ℕ × ℕ)
hashrange shard_id m = elim (Dict.get shard_id m.snapshot.shards) [
  | some shard ↦ some (shard.starting_hash_key, shard.ending_hash_key)
  | none ↦ none
]

-- `_spawn_refresh`
unfoldable pub spawn_refresh : ShardMapConfig → ShardMap → ShardMap
spawn_refresh cfg m = if is_updating m.state then m else record m {
  state = updating;
  backoff = cfg.min_backoff;
  refresh_done = false;
  refresh_in_flight = true;
  refresh_scope = some m.spawned;
  spawned = suc m.spawned;
}

-- `seen_at <= updated_at`, if the map was updated.
abbrev pub is_old : ℕ → Option ℕ → Bool
is_old seen_at none = false
is_old seen_at (some t) = leb seen_at t

-- `predicted_shard is not None and predicted_shard not in shards`
abbrev pub is_unknown : Option ℕ → Dict ℕ Shard → Bool
is_unknown none shards = false
is_unknown (some i) shards = elim (Dict.get i shards) [ some shard ↦ false | none ↦ true ]

-- `invalidate`
unfoldable pub invalidate : ShardMapConfig → ℕ → Option ℕ → ShardMap → ShardMap
unfolding spawn_refresh
invalidate cfg seen_at predicted_shard m =
    if m.closed || (is_old seen_at m.updated_at || is_unknown predicted_shard m.snapshot.shards)
    then m
    else spawn_refresh cfg m

-- `aclose`
abbrev pub cancel_scope : Option ℕ → List ℕ → List ℕ
cancel_scope none cancelled = cancelled
cancel_scope (some scope) cancelled = cancelled ++ scope ∷ []

unfoldable pub aclose : ShardMap → ShardMap
aclose m = record m {
  closed = true;
  cleanup_scope = none;
  refresh_scope = none;
  cancelled = cancel_scope m.refresh_scope (cancel_scope m.cleanup_scope m.cancelled);
  refresh_done = true;
}

-- `closed_at[sid]`, behind the `setdefault`.
abbrev pub since : ℕ → Option ℕ → ℕ
since now none = now
since now (some t) = t

-- A round of the loop over `previous.shards.items()`: the times of closing and the merged shards.
unfoldable pub merge_one :
    ℕ → ℕ → Dict ℕ Shard → ℕ → Shard → Dict ℕ ℕ × Dict ℕ Shard → Dict ℕ ℕ × Dict ℕ Shard
merge_one ttl now new_ids sid shard acc = elim (Dict.get sid new_ids) [
  | some new ↦ (Dict.remove sid acc.0, acc.1)
  | none ↦
      let t = since now (Dict.get sid acc.0) in
      (Dict.put sid t acc.0, if ltb now (t + ttl) then Dict.put sid shard acc.1 else acc.1)
]

unfoldable pub merge_previous :
    ℕ → ℕ → Dict ℕ Shard → Dict ℕ Shard → Dict ℕ ℕ × Dict ℕ Shard → Dict ℕ ℕ × Dict ℕ Shard
unfolding merge_one
merge_previous ttl now new_ids [] acc = acc
merge_previous ttl now new_ids ((sid, shard) ∷ previous) acc =
    merge_previous ttl now new_ids previous (merge_one ttl now new_ids sid shard acc)

-- `_schedule_cleanup`
unfoldable pub schedule_cleanup : ShardMap → ShardMap
schedule_cleanup m = if m.closed then m else record m {
  cancelled = cancel_scope m.cleanup_scope m.cancelled;
  cleanup_scope = some m.spawned;
  spawned = suc m.spawned;
}

-- `_install_snapshot`, at the clock's time `now`.
unfoldable pub install_snapshot : ShardMapConfig → ℕ → Snapshot → ShardMap → ShardMap
unfolding merge_previous schedule_cleanup
install_snapshot cfg now fetched m =
    let (closed_at, merged) =
      merge_previous cfg.closed_shard_ttl now fetched.shards m.snapshot.shards
        (m.closed_at, fetched.shards) in
    schedule_cleanup (record m {
      closed_at = closed_at;
      snapshot = record fetched { shards = merged };
      state = ready;
      updated_at = some now;
      backoff = cfg.min_backoff;
    })

-- The `try` of `_refresh_loop`: a fetch that fails is tried again after the backoff, which is the
-- second result; one that succeeds ends the loop, with its `finally`.
abbrev pub fetched_round :
    ShardMapConfig → ℕ → ShardMap → Result FetchError Snapshot → ShardMap × Option ℕ
fetched_round cfg now m (ok fetched) = (
  record (install_snapshot cfg now fetched m) { refresh_in_flight = false; refresh_done = true },
  none,
)
fetched_round cfg now m (err e) =
    (record m { backoff = min (m.backoff * 2) cfg.max_backoff }, some m.backoff)

-- A round of `_refresh_loop`: the answers of its fetch, and the time at which the fetch ends.
unfoldable pub refresh_round : ShardMapConfig → ℕ → List Answer → ShardMap → ShardMap × Option ℕ
unfolding fetch_all_pages
refresh_round cfg now answers m =
    if m.closed
    then (record m { refresh_in_flight = false; refresh_done = true }, none)
    else fetched_round cfg now m (fetch_all_pages answers)

-- The ids of the closed shards whose time is over, and the shards without them.
unfoldable pub expired_ids : ℕ → ℕ → Dict ℕ ℕ → List ℕ
expired_ids ttl now [] = []
expired_ids ttl now ((sid, since) ∷ closed_at) =
    let rest = expired_ids ttl now closed_at in if leb (since + ttl) now then sid ∷ rest else rest

unfoldable pub without {ℓ} : {V : Type ℓ} → List ℕ → Dict ℕ V → Dict ℕ V
without [] d = d
without (sid ∷ expired) d = without expired (Dict.remove sid d)

-- `_cleanup`
unfoldable pub cleanup : ShardMapConfig → ℕ → ShardMap → ShardMap
unfolding expired_ids without
cleanup cfg now m =
    let m' = record m { cleanup_scope = none } in
    let expired = expired_ids cfg.closed_shard_ttl now m.closed_at in
    if m.closed || not (is_ready m.state) then m' else record m' {
      snapshot = record m.snapshot { shards = without expired m.snapshot.shards };
      closed_at = without expired m.closed_at;
    }
