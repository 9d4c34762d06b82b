-- ===== src/ShardMap/Invalidate.antt =====
-- When `invalidate` starts a refresh, and when it changes nothing.
use aiokpl.Common.{
  ℕ, suc, ◌<◌, ◌≡◌, refl, ap, ◌⊎◌, inl, inr, Bool, true, false, ◌||◌, Bool-cases, Option, none,
  some, arith, ◌∙◌, ◌≤◌, List,
}
use aiokpl.Common.Dict
use aiokpl.Common.Dict.{Dict}
use aiokpl.Common.Eq.{nat_Eq}
use aiokpl.ShardMap.Predict.{refresh_round-ok}
use aiokpl.ShardMap.Fetch.{fetch_all_pages}
use aiokpl.Common.Result.{ok}
use aiokpl.ShardMap.{
  schedule_cleanup, install_snapshot, refresh_round, spawn_refresh, ShardMap, ShardMapConfig,
  is_updating, is_old, is_unknown, invalidate,
}
use aiokpl.ShardMap.Types.{Snapshot, Answer, updating, Shard}

-- The observation is later than the last update, if there was one.
abbrev pub IsNews : ℕ → Option ℕ → Type 0
IsNews seen_at updated_at = (updated_at ≡ none) ⊎ ((t : ℕ) × (updated_at ≡ some t) × (t < seen_at))

-- No shard is named, or one that the map holds.
abbrev pub IsHeld : Option ℕ → Dict ℕ Shard → Type 0
IsHeld shard shards =
    (shard ≡ none) ⊎ ((i : ℕ) × (s : Shard) × (shard ≡ some i) × (Dict.get i shards ≡ some s))

-- A refresh was started: everything but its own fields is as it was.
pub record IsStarted (cfg : ShardMapConfig) (m m' : ShardMap) : Type 0 where
  state : m'.state ≡ updating
  backoff : m'.backoff ≡ cfg.min_backoff
  in_flight : m'.refresh_in_flight ≡ true
  once : m'.spawned ≡ suc m.spawned
  same_snapshot : m'.snapshot ≡ m.snapshot
  same_update : m'.updated_at ≡ m.updated_at

-- The three guards of `invalidate`, and that of `_spawn_refresh`.
module _ (cfg : ShardMapConfig) (seen_at : ℕ) (shard : Option ℕ) (m : ShardMap) where
  abbrev is_blocked : Bool
  is_blocked = m.closed || (is_old seen_at m.updated_at || is_unknown shard m.snapshot.shards)

  invalidate-blocked : is_blocked ≡ true → invalidate cfg seen_at shard m ≡ m
  unfolding invalidate
  invalidate-blocked e = rw e refl

  invalidate-busy :
      is_blocked ≡ false → is_updating m.state ≡ true → invalidate cfg seen_at shard m ≡ m
  unfolding invalidate spawn_refresh
  invalidate-busy e f = rw (e, f) refl

updated-schedule : (m : ShardMap) → (schedule_cleanup m).updated_at ≡ m.updated_at
unfolding schedule_cleanup
updated-schedule m = elim (Bool-cases m.closed) [ inl e ↦ rw e refl | inr e ↦ rw e refl ]

pub updated-install :
    (cfg : ShardMapConfig) (now : ℕ) (fetched : Snapshot) (m : ShardMap)
    → (install_snapshot cfg now fetched m).updated_at ≡ some now
unfolding install_snapshot
updated-install cfg now fetched m = updated-schedule _

invalidate-updating :
    (cfg : ShardMapConfig) (seen_at : ℕ) (shard : Option ℕ) (m : ShardMap)
    → is_updating m.state ≡ true
    → invalidate cfg seen_at shard m ≡ m
invalidate-updating cfg seen_at shard m busy = elim (Bool-cases (is_blocked cfg seen_at shard m)) [
  | inl e ↦ invalidate-blocked cfg seen_at shard m e
  | inr e ↦ invalidate-busy cfg seen_at shard m e busy
]

spawn_refresh-updating :
    (cfg : ShardMapConfig) (m : ShardMap) → is_updating (spawn_refresh cfg m).state ≡ true
unfolding spawn_refresh
spawn_refresh-updating cfg m = elim (Bool-cases (is_updating m.state)) [
  | inl e ↦ rw e e
  | inr e ↦ rw e refl
]

-- Many invalidations make one refresh: none changes a map whose refresh was started; and once the
-- refresh of an open map has taken its answers, all of which came, at `now`, none of an observation
-- that was made until then changes the map.
pub invalidate-once :
    (cfg : ShardMapConfig) (now seen_at : ℕ) (shard : Option ℕ) (answers : List Answer)
    (fetched : Snapshot) (m : ShardMap)
    → m.closed ≡ false
    → fetch_all_pages answers ≡ ok fetched
    → seen_at ≤ now
    → (invalidate cfg seen_at shard (spawn_refresh cfg m) ≡ spawn_refresh cfg m)
      × (invalidate cfg seen_at shard (refresh_round cfg now answers m).0
          ≡ (refresh_round cfg now answers m).0)
invalidate-once cfg now seen_at shard answers fetched m opened all_came early =
    let done = (refresh_round cfg now answers m).0 in
    let at_now : done.updated_at ≡ some now =
      ap (λ s. s.updated_at) (refresh_round-ok cfg now answers fetched m opened all_came)
      ∙ updated-install cfg now fetched m in
    let old : is_old seen_at done.updated_at ≡ true = rw at_now (ground (arith, early)) in
    (
      invalidate-updating cfg seen_at shard (spawn_refresh cfg m) (spawn_refresh-updating cfg m),
      invalidate-blocked cfg seen_at shard done (ground (arith, old)),
    )
