-- ===== src/ShardMap/Types.antt =====
-- The data of aiokpl/shard_map.py. Hash keys and shard ids are numbers.
use aiokpl.Common.{ℕ, Option, List}
use aiokpl.Common.Dict.{Dict}
use aiokpl.Aggregation.Types.{Str}
use aiokpl.Hashing.{HashError}

pub data ShardMapState : Type 0 where
  invalid updating ready : ShardMapState

pub record Shard : Type 0 where
  pub shard_id : ℕ
  pub raw_shard_id : Str
  pub starting_hash_key : ℕ
  pub ending_hash_key : ℕ

pub record Snapshot : Type 0 where
  pub endings : List ℕ
  pub shard_ids : List ℕ
  pub shards : Dict ℕ Shard

-- An entry of `Shards` in a response of `ListShards`.
pub record RawShard : Type 0 where
  pub raw_id : Str
  pub starting : Str
  pub ending : Str

-- What `list_shards_fn` may do: raise, or answer with a page.
pub data Answer : Type 0 where
  raises : Answer
  page : List RawShard → Option Str → Answer

-- What ends `_fetch_all_pages` without a snapshot; `unanswered` if the last call is not answered yet.
pub data FetchError : Type 0 where
  malformed_shard_id inverted_range call_failed unanswered : FetchError
  bad_hash_key : HashError → FetchError
