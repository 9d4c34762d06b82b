-- ===== src/ShardMap/Listed.antt =====
-- What the answers of `ListShards` list, and the snapshot that `_fetch_all_pages` makes of it.
use mathlib.Core.List.{append_assoc, append-nil}
use aiokpl.Common.{
  ℕ, ◌≤◌, ◌≡◌, refl, ap, ◌∙◌, Bool, true, false, Option, List, [], ◌∷◌, ◌++◌, map, arith, ltb, All,
  All-append,
}
use aiokpl.Common.Eq.{nat_Eq}
use aiokpl.Common.Dict
use aiokpl.Common.Dict.{Dict}
use aiokpl.Common.Result.{Result, ok, err, raise_if, >>=-eq-ok}
use aiokpl.Aggregation.Types.{Str}
use aiokpl.ShardMap.Types.{Shard, RawShard, Answer, page, FetchError, inverted_range}
use aiokpl.ShardMap.Parse.{parse_shard_id, parse_hash_key, build_shard}
use aiokpl.ShardMap.Fetch.{Ending, take_page, has_token, take_pages, snapshot_of, fetch_all_pages}

-- The shards that the entries of a page are built to.
pub data Built : List RawShard → List Shard → Type 0 where
  built_nil : Built [] []
  built_cons :
      (raw : RawShard) (shard : Shard) (raws : List RawShard) (ss : List Shard)
      → build_shard raw ≡ ok shard
      → Built raws ss
      → Built (raw ∷ raws) (shard ∷ ss)

-- The shards that the answers list: the pages up to the first that has no token for the next.
pub data Listed : List Answer → List Shard → Type 0 where
  last_page :
      (raws : List RawShard) (token : Option Str) (answers : List Answer) (ss : List Shard)
      → has_token token ≡ false
      → Built raws ss
      → Listed (page raws token ∷ answers) ss
  more_pages :
      (raws : List RawShard) (token : Option Str) (answers : List Answer) (ss ts : List Shard)
      → has_token token ≡ true
      → Built raws ss
      → Listed answers ts
      → Listed (page raws token ∷ answers) (ss ++ ts)

abbrev pub entry : Shard → Ending
entry s = (s.ending_hash_key, s.shard_id)

abbrev pub put_shards : List Shard → Dict ℕ Shard → Dict ℕ Shard
put_shards [] d = d
put_shards (s ∷ ss) d = put_shards ss (Dict.put s.shard_id s d)

put_shards-append :
    (ss ts : List Shard) (d : Dict ℕ Shard)
    → put_shards (ss ++ ts) d ≡ put_shards ts (put_shards ss d)
put_shards-append [] ts d = refl
put_shards-append (s ∷ ss) ts d = put_shards-append ss ts (Dict.put s.shard_id s d)

map-append : (ss ts : List Shard) → map entry (ss ++ ts) ≡ map entry ss ++ map entry ts
map-append [] ts = refl
map-append (s ∷ ss) ts = ap (λ l. entry s ∷ l) (map-append ss ts)

take_page-Built :
    (raws : List RawShard) (ss : List Shard) (acc : List Ending × Dict ℕ Shard)
    → Built raws ss
    → take_page raws acc ≡ ok (acc.0 ++ map entry ss, put_shards ss acc.1)
unfolding take_page
take_page-Built _ _ acc built_nil = rw (append-nil acc.0) refl
take_page-Built _ _ acc (built_cons raw shard raws ss e b) = rw e (
    take_page-Built raws ss (acc.0 ++ entry shard ∷ [], Dict.put shard.shard_id shard acc.1) b
    ∙ ap (λ l. ok (l, put_shards ss (Dict.put shard.shard_id shard acc.1)))
        (append_assoc acc.0 (entry shard ∷ []) (map entry ss)))

take_pages-Listed :
    (answers : List Answer) (ss : List Shard) (acc : List Ending × Dict ℕ Shard)
    → Listed answers ss
    → take_pages answers acc ≡ ok (acc.0 ++ map entry ss, put_shards ss acc.1)
unfolding take_pages
take_pages-Listed _ ss acc (last_page raws token answers _ e b) =
    rw (take_page-Built raws ss acc b, e) refl
take_pages-Listed _ _ acc (more_pages raws token answers ss ts e b l) =
    rw (take_page-Built raws ss acc b, e)
      (take_pages-Listed answers ts (acc.0 ++ map entry ss, put_shards ss acc.1) l
        ∙ rw
            (
              map-append ss ts,
              put_shards-append ss ts acc.1,
              append_assoc acc.0 (map entry ss) (map entry ts),
            )
            refl)

-- The fetch of answers that list `ss` ends, with the snapshot of `ss`.
pub fetch_all_pages-Listed :
    (answers : List Answer) (ss : List Shard)
    → Listed answers ss
    → fetch_all_pages answers ≡ ok (snapshot_of (map entry ss, put_shards ss []))
unfolding fetch_all_pages
fetch_all_pages-Listed answers ss l = rw (take_pages-Listed answers ss ([], []) l) refl

not_inverted : (b : Bool) (e : FetchError) {u : Unit {0}} → raise_if b e ≡ ok u → b ≡ false
not_inverted false e h = refl
not_inverted true e h = cc h

-- A shard that is built has its range in order.
build_shard-ordered :
    (raw : RawShard) (shard : Shard)
    → build_shard raw ≡ ok shard
    → shard.starting_hash_key ≤ shard.ending_hash_key
unfolding build_shard
build_shard-ordered raw shard h =
    let (i, e1, h1) = >>=-eq-ok (parse_shard_id raw.raw_id) _ h in
    let (start, e2, h2) = >>=-eq-ok (parse_hash_key raw.starting) _ h1 in
    let (end, e3, h3) = >>=-eq-ok (parse_hash_key raw.ending) _ h2 in
    let (u, e4, h4) = >>=-eq-ok (raise_if (ltb end start) inverted_range) _ h3 in
    let first =
      ap (λ (r : Result FetchError Shard). elim r [ ok s ↦ s.starting_hash_key | err e ↦ 0 ]) h4 in
    let last =
      ap (λ (r : Result FetchError Shard). elim r [ ok s ↦ s.ending_hash_key | err e ↦ 0 ]) h4 in
    ground (arith, not_inverted (ltb end start) inverted_range e4, first, last)

abbrev pub IsOrdered : Shard → Type 0
IsOrdered s = s.starting_hash_key ≤ s.ending_hash_key

Built-IsOrdered : (raws : List RawShard) (ss : List Shard) → Built raws ss → All IsOrdered ss
Built-IsOrdered _ _ built_nil = tt
Built-IsOrdered _ _ (built_cons raw shard raws ss e b) =
    (build_shard-ordered raw shard e, Built-IsOrdered raws ss b)

pub Listed-IsOrdered :
    (answers : List Answer) (ss : List Shard) → Listed answers ss → All IsOrdered ss
Listed-IsOrdered _ ss (last_page raws token answers _ e b) = Built-IsOrdered raws ss b
Listed-IsOrdered _ _ (more_pages raws token answers ss ts e b l) =
    All-append IsOrdered ss ts (Built-IsOrdered raws ss b) (Listed-IsOrdered answers ts l)
