-- ===== src/ShardMap/Refresh.antt =====
-- The states of the shard map, over any sequence of its operations.
use aiokpl.Common.{
  ℕ, ◌*◌, min, ◌≡◌, ◌≢◌, refl, sym, ap, ◌∙◌, ◌⊎◌, inl, inr, Bool, true, false, not, ◌||◌,
  Bool-cases, Option, none, List, if◌then◌else◌,
}
use aiokpl.Common.Result.{err, Result-cases}
use aiokpl.Common.Eq.{nat_Eq}
use aiokpl.ShardMap.Types.{Snapshot, Answer, FetchError}
use aiokpl.ShardMap.Fetch.{fetch_all_pages}
use aiokpl.ShardMap.Unique.{Unique, merge_previous-Unique, Unique-without, fetch_all_pages-Unique}
use aiokpl.ShardMap.Install.{shards-install_snapshot}
use aiokpl.ShardMap.Invalidate.{updated-install}
use aiokpl.ShardMap.Predict.{if_false, installed, refresh_round-ok}
use aiokpl.ShardMap.{
  ShardMap, ShardMapConfig, new_shard_map, is_ready, is_updating, spawn_refresh, is_old, is_unknown,
  invalidate, aclose, install_snapshot, fetched_round, refresh_round, expired_ids, cleanup,
}

-- The steps of a shard map. A refresh loop takes a round only while it is in flight.
pub data Step (cfg : ShardMapConfig) : ShardMap → ShardMap → Type 0 where
  spawns : (m : ShardMap) → Step cfg m (spawn_refresh cfg m)
  invalidates :
      (seen_at : ℕ) (shard : Option ℕ) (m : ShardMap) → Step cfg m (invalidate cfg seen_at shard m)
  refreshes :
      (now : ℕ) (answers : List Answer) (m : ShardMap)
      → m.refresh_in_flight ≡ true
      → Step cfg m (refresh_round cfg now answers m).0
  cleans : (now : ℕ) (m : ShardMap) → Step cfg m (cleanup cfg now m)
  closes : (m : ShardMap) → Step cfg m (aclose m)

pub data Reachable (cfg : ShardMapConfig) : ShardMap → Type 0 where
  starts : Reachable cfg (new_shard_map cfg)
  steps : (m m' : ShardMap) → Reachable cfg m → Step cfg m m' → Reachable cfg m'

-- Until the map is closed a refresh loop runs if and only if the state is UPDATING; a map that is
-- READY was updated; and no shard is held twice.
pub record IsConsistent (m : ShardMap) : Type 0 where
  pub one_loop : (m.closed ≡ true) ⊎ (m.refresh_in_flight ≡ is_updating m.state)
  pub updated : (is_ready m.state ≡ false) ⊎ (m.updated_at ≢ none)
  pub unique : Unique m.snapshot.shards

spawn-IsConsistent :
    (cfg : ShardMapConfig) (m : ShardMap) → IsConsistent m → IsConsistent (spawn_refresh cfg m)
unfolding spawn_refresh
spawn-IsConsistent cfg m c = elim (Bool-cases (is_updating m.state)) [
  | inl e ↦ rw e c
  | inr e ↦ rw e record { one_loop = inr refl; updated = inl refl; unique = c.unique }
]

invalidate-IsConsistent :
    (cfg : ShardMapConfig) (seen_at : ℕ) (shard : Option ℕ) (m : ShardMap)
    → IsConsistent m
    → IsConsistent (invalidate cfg seen_at shard m)
unfolding invalidate
invalidate-IsConsistent cfg seen_at shard m c =
    elim (Bool-cases
      (m.closed || (is_old seen_at m.updated_at || is_unknown shard m.snapshot.shards))) [
        | inl e ↦ rw e c
        | inr e ↦ rw e (spawn-IsConsistent cfg m c)
      ]

aclose-IsConsistent : (m : ShardMap) → IsConsistent m → IsConsistent (aclose m)
unfolding aclose
aclose-IsConsistent m c = record { one_loop = inl refl; updated = c.updated; unique = c.unique }

cleanup-IsConsistent :
    (cfg : ShardMapConfig) (now : ℕ) (m : ShardMap)
    → IsConsistent m
    → IsConsistent (cleanup cfg now m)
unfolding cleanup
cleanup-IsConsistent cfg now m c = elim (Bool-cases (m.closed || not (is_ready m.state))) [
  | inl e ↦ rw e record { one_loop = c.one_loop; updated = c.updated; unique = c.unique }
  | inr e ↦ rw e record {
    one_loop = c.one_loop;
    updated = c.updated;
    unique =
        Unique-without (expired_ids cfg.closed_shard_ttl now m.closed_at) m.snapshot.shards
          c.unique;
  }
]

if_true : {A : Type 0} (b : Bool) (x y : A) → b ≡ true → (if b then x else y) ≡ x
if_true b x y e = rw e refl

refresh_round-closed :
    (cfg : ShardMapConfig) (now : ℕ) (answers : List Answer) (m : ShardMap)
    → m.closed ≡ true
    → (refresh_round cfg now answers m).0
      ≡ record m { refresh_in_flight = false; refresh_done = true }
unfolding refresh_round
refresh_round-closed cfg now answers m e =
    ap (λ (r : ShardMap × Option ℕ). r.0) (if_true m.closed _ _ e)

refresh_round-err :
    (cfg : ShardMapConfig) (now : ℕ) (answers : List Answer) (x : FetchError) (m : ShardMap)
    → m.closed ≡ false
    → fetch_all_pages answers ≡ err x
    → (refresh_round cfg now answers m).0
      ≡ record m { backoff = min (m.backoff * 2) cfg.max_backoff }
unfolding refresh_round
refresh_round-err cfg now answers x m e f =
    ap (λ (r : ShardMap × Option ℕ). r.0) (if_false m.closed _ _ e)
    ∙ ap (λ r. (fetched_round cfg now m r).0) f

install-IsConsistent :
    (cfg : ShardMapConfig) (now : ℕ) (fetched : Snapshot) (m : ShardMap)
    → Unique fetched.shards
    → IsConsistent (record (install_snapshot cfg now fetched m) {
      refresh_in_flight = false;
      refresh_done = true;
    })
install-IsConsistent cfg now fetched m u = record {
  one_loop = inr (sym (ap is_updating (installed cfg now fetched m).0));
  updated = inr (λ none_yet. cc (updated-install cfg now fetched m, none_yet));
  unique = rw (shards-install_snapshot cfg now fetched m) (
      merge_previous-Unique cfg.closed_shard_ttl now fetched.shards m.snapshot.shards
        (m.closed_at, fetched.shards) u);
}

refresh-IsConsistent :
    (cfg : ShardMapConfig) (now : ℕ) (answers : List Answer) (m : ShardMap)
    → IsConsistent m
    → IsConsistent (refresh_round cfg now answers m).0
refresh-IsConsistent cfg now answers m c = elim (Bool-cases m.closed) [
  | inl e ↦
      rw (refresh_round-closed cfg now answers m e)
        record { one_loop = inl e; updated = c.updated; unique = c.unique }
  | inr e ↦ elim (Result-cases (fetch_all_pages answers)) [
    | inl (fetched, f) ↦
        rw (refresh_round-ok cfg now answers fetched m e f)
          (install-IsConsistent cfg now fetched m (fetch_all_pages-Unique answers fetched f))
    | inr (x, f) ↦
        rw (refresh_round-err cfg now answers x m e f)
          record { one_loop = c.one_loop; updated = c.updated; unique = c.unique }
  ]
]

Step-IsConsistent :
    (cfg : ShardMapConfig) (m m' : ShardMap) → Step cfg m m' → IsConsistent m → IsConsistent m'
Step-IsConsistent cfg m _ (spawns _) c = spawn-IsConsistent cfg m c
Step-IsConsistent cfg m _ (invalidates seen_at shard _) c =
    invalidate-IsConsistent cfg seen_at shard m c
Step-IsConsistent cfg m _ (refreshes now answers _ flying) c =
    refresh-IsConsistent cfg now answers m c
Step-IsConsistent cfg m _ (cleans now _) c = cleanup-IsConsistent cfg now m c
Step-IsConsistent cfg m _ (closes _) c = aclose-IsConsistent m c

-- In every state that a shard map reaches, a refresh loop runs if and only if the state is UPDATING,
-- or the map is closed; if the state is READY the map was updated; and no shard is held twice.
pub Reachable-IsConsistent :
    (cfg : ShardMapConfig) (m : ShardMap) → Reachable cfg m → IsConsistent m
Reachable-IsConsistent cfg _ starts = record {
  one_loop = inr refl;
  updated = inl refl;
  unique = tt;
}
Reachable-IsConsistent cfg _ (steps m m' r s) =
    Step-IsConsistent cfg m m' s (Reachable-IsConsistent cfg m r)
