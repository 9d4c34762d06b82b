-- ===== src/ShardMap/Tests.antt =====
-- Runs of a shard map, and its theorems at a map of two shards.
use aiokpl.Common.{map, ◌≡◌, refl, inl, inr, none, some, List, [], ◌∷◌, ◌++◌, arith}
use aiokpl.Common.Dict
use aiokpl.Common.Result.{ok}
use aiokpl.Hashing.{digits_value, parse_explicit_hash_key}
use aiokpl.ShardMap.Types.{Shard, Snapshot, RawShard, Answer, page, ready}
use aiokpl.ShardMap.Parse.{shard_prefix, parse_shard_id, parse_hash_key, build_shard}
use aiokpl.ShardMap.Bisect.{bisect_left}
use aiokpl.ShardMap.Listed.{
  built_nil, built_cons, Listed, last_page, more_pages, entry, put_shards, fetch_all_pages-Listed,
}
use aiokpl.ShardMap.Predict.{predict-refresh_round}
use aiokpl.ShardMap.Install.{range_of, hashrange-install_snapshot}
use aiokpl.ShardMap.Refresh.{spawns, starts, steps, IsConsistent, Reachable-IsConsistent}
use aiokpl.ShardMap.Fetch.{snapshot_of}
use aiokpl.ShardMap.Invalidate.{invalidate-once}
use aiokpl.ShardMap.{
  ShardMap, ShardMapConfig, new_shard_map, predict, hashrange, spawn_refresh, invalidate,
  refresh_round, install_snapshot,
}

abbrev cfg : ShardMapConfig
cfg = record { min_backoff = 1; max_backoff = 30; closed_shard_ttl = 60 }

-- Shard 1 with the keys 100 to 199 on the first page, and shard 0 with 0 to 99 on the second.
abbrev raw_one : RawShard
raw_one = record {
  raw_id = shard_prefix ++ 49 ∷ [];
  starting = 49 ∷ 48 ∷ 48 ∷ [];
  ending = 49 ∷ 57 ∷ 57 ∷ [];
}

abbrev raw_zero : RawShard
raw_zero = record { raw_id = shard_prefix ++ 48 ∷ []; starting = 48 ∷ []; ending = 57 ∷ 57 ∷ [] }

abbrev one : Shard
one = record {
  shard_id = 1;
  raw_shard_id = shard_prefix ++ 49 ∷ [];
  starting_hash_key = 100;
  ending_hash_key = 199;
}

abbrev zeroth : Shard
zeroth = record {
  shard_id = 0;
  raw_shard_id = shard_prefix ++ 48 ∷ [];
  starting_hash_key = 0;
  ending_hash_key = 99;
}

abbrev answers : List Answer
answers = page (raw_one ∷ []) (some (97 ∷ [])) ∷ page (raw_zero ∷ []) none ∷ []

build-one : build_shard raw_one ≡ ok one
unfolding build_shard parse_shard_id parse_hash_key parse_explicit_hash_key digits_value
build-one = refl

build-zeroth : build_shard raw_zero ≡ ok zeroth
unfolding build_shard parse_shard_id parse_hash_key parse_explicit_hash_key digits_value
build-zeroth = refl

answers-Listed : Listed answers (one ∷ zeroth ∷ [])
answers-Listed =
    more_pages (raw_one ∷ []) (some (97 ∷ [])) (page (raw_zero ∷ []) none ∷ []) (one ∷ [])
      (zeroth ∷ []) refl (built_cons raw_one one [] [] build-one built_nil)
      (last_page (raw_zero ∷ []) none [] (zeroth ∷ []) refl
        (built_cons raw_zero zeroth [] [] build-zeroth built_nil))

bisect-three : bisect_left (5 ∷ 10 ∷ 20 ∷ []) 10 ≡ 1
unfolding bisect_left
bisect-three = refl

predict-refresh_round_example :
    predict 100 (refresh_round cfg 7 answers (new_shard_map cfg)).0 ≡ some 1
predict-refresh_round_example =
    predict-refresh_round cfg 7 answers (one ∷ zeroth ∷ []) one 100 (new_shard_map cfg) refl
      answers-Listed (inl refl) (inl refl, (inr (inl (omega arith)), tt)) (omega arith)
      (omega arith)

-- A map that holds both shards.
abbrev both : ShardMap
both = record (new_shard_map cfg) {
  state = ready;
  snapshot = record {
    endings = 99 ∷ 199 ∷ [];
    shard_ids = 0 ∷ 1 ∷ [];
    shards = (0, zeroth) ∷ (1, one) ∷ [];
  };
  updated_at = some 7;
}

abbrev only_zeroth : Snapshot
only_zeroth = record { endings = 99 ∷ []; shard_ids = 0 ∷ []; shards = (0, zeroth) ∷ [] }

hashrange-install_snapshot_example :
    hashrange 1 (install_snapshot cfg 50 only_zeroth both) ≡ range_of (some one)
unfolding Dict.get
hashrange-install_snapshot_example =
    hashrange-install_snapshot cfg 50 1 only_zeroth both (refl, (refl, tt))

Reachable-IsConsistent_example : IsConsistent (spawn_refresh cfg (new_shard_map cfg))
Reachable-IsConsistent_example =
    Reachable-IsConsistent cfg (spawn_refresh cfg (new_shard_map cfg)) (
      steps (new_shard_map cfg) (spawn_refresh cfg (new_shard_map cfg)) starts
        (spawns (new_shard_map cfg)))

-- A shard that the map does not hold starts no refresh.
unknown_ignored : invalidate cfg 100 (some 5) both ≡ both
unfolding invalidate Dict.get
unknown_ignored = refl

-- After the refresh of the map at 9, the observation of 8 is old.
invalidate-once_example :
    (invalidate cfg 8 (some 1) (spawn_refresh cfg both) ≡ spawn_refresh cfg both)
    × (invalidate cfg 8 (some 1) (refresh_round cfg 9 answers both).0
        ≡ (refresh_round cfg 9 answers both).0)
invalidate-once_example =
    invalidate-once cfg 9 8 (some 1) answers
      (snapshot_of (map entry (one ∷ zeroth ∷ []), put_shards (one ∷ zeroth ∷ []) [])) both refl
      (fetch_all_pages-Listed answers (one ∷ zeroth ∷ []) answers-Listed) (omega arith)
