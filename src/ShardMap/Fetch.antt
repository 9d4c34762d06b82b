-- ===== src/ShardMap/Fetch.antt =====
-- `_fetch_all_pages` of aiokpl/shard_map.py. What the calls of `list_shards_fn` answer, one after
-- the other, is a list.
use aiokpl.Common.{
  ℕ, Bool, true, false, ◌&&◌, ◌||◌, Option, none, some, List, [], ◌∷◌, ◌++◌, ltb, leb, ◌==◌,
  if◌then◌else◌, map,
}
use aiokpl.Common.Eq.{nat_Eq}
use aiokpl.Common.Dict
use aiokpl.Common.Dict.{Dict}
use aiokpl.Common.Result.{Result, ok, err, ◌>>=◌}
use aiokpl.Aggregation.Types.{Str}
use aiokpl.ShardMap.Types.{
  Shard, Snapshot, RawShard, Answer, raises, page, FetchError, call_failed, unanswered,
}
use aiokpl.ShardMap.Parse.{build_shard}

-- An entry of the list `endings`: an ending hash key and the id of its shard.
abbrev pub Ending : Type 0
Ending = ℕ × ℕ

-- The order of Python's tuples.
abbrev pub not_after : Ending → Ending → Bool
not_after (e, i) (f, j) = ltb e f || (e == f && leb i j)

-- `endings.sort()`, as an insertion sort.
unfoldable pub insert_ending : Ending → List Ending → List Ending
insert_ending x [] = x ∷ []
insert_ending x (y ∷ ys) = if not_after x y then x ∷ y ∷ ys else y ∷ insert_ending x ys

unfoldable pub sort_endings : List Ending → List Ending
unfolding insert_ending
sort_endings [] = []
sort_endings (x ∷ xs) = insert_ending x (sort_endings xs)

-- The shards of a page in turn: the list of endings and the dict of shards so far.
unfoldable pub take_page :
    List RawShard → List Ending × Dict ℕ Shard → Result FetchError (List Ending × Dict ℕ Shard)
unfolding build_shard
take_page [] acc = ok acc
take_page (raw ∷ raws) acc = do
  shard ← build_shard raw
  take_page raws
      (acc.0 ++ (shard.ending_hash_key, shard.shard_id) ∷ [], Dict.put shard.shard_id shard acc.1)

-- `if not next_token`
abbrev pub has_token : Option Str → Bool
has_token none = false
has_token (some []) = false
has_token (some (c ∷ s)) = true

-- The `while True`, one call for each answer.
unfoldable pub take_pages :
    List Answer → List Ending × Dict ℕ Shard → Result FetchError (List Ending × Dict ℕ Shard)
unfolding take_page
take_pages [] acc = err unanswered
take_pages (raises ∷ answers) acc = err call_failed
take_pages (page raws token ∷ answers) acc = do
  acc' ← take_page raws acc
  if has_token token then take_pages answers acc' else ok acc'

-- The snapshot of the endings and the shards that were taken.
abbrev pub snapshot_of : List Ending × Dict ℕ Shard → Snapshot
snapshot_of acc =
    let sorted = sort_endings acc.0 in
    record { endings = map (λ p. p.0) sorted; shard_ids = map (λ p. p.1) sorted; shards = acc.1 }

unfoldable pub fetch_all_pages : List Answer → Result FetchError Snapshot
unfolding take_pages sort_endings
fetch_all_pages answers = do acc ← take_pages answers ([], []); ok (snapshot_of acc)
