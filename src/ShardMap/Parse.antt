-- ===== src/ShardMap/Parse.antt =====
-- `_parse_shard_id`, `_parse_hash_key` and `_build_shard` of aiokpl/shard_map.py. The digits of a
-- shard id are the ten of ASCII, as the service writes them.
use aiokpl.Common.{ℕ, Option, none, some, [], ◌∷◌, ltb, ◌==◌, if◌then◌else◌, length}
use aiokpl.Common.Result.{Result, ok, err, ◌>>=◌, ◌>>◌, raise_if}
use aiokpl.Aggregation.Types.{Str}
use aiokpl.Hashing.{is_digit, int_of_digits, parse_explicit_hash_key}
use aiokpl.ShardMap.Types.{
  Shard, RawShard, FetchError, malformed_shard_id, inverted_range, bad_hash_key,
}

-- `"shardId-"`
abbrev pub shard_prefix : Str
shard_prefix = 115 ∷ 104 ∷ 97 ∷ 114 ∷ 100 ∷ 73 ∷ 100 ∷ 45 ∷ []

-- `(\d+)$`: the digits of the group. The end of the pattern is also found before a last newline.
abbrev pub digits_group : Str → Option Str
digits_group [] = some []
digits_group (c ∷ []) = if c == 10 then some [] else if is_digit c then some (c ∷ []) else none
digits_group (c ∷ d ∷ s) = elim (digits_group (d ∷ s)) [
  | some digits ↦ if is_digit c then some (c ∷ digits) else none
  | none ↦ none
]

-- The text behind `"shardId-"`.
abbrev pub strip : Str → Str → Option Str
strip [] s = some s
strip (p ∷ ps) [] = none
strip (p ∷ ps) (c ∷ s) = if p == c then strip ps s else none

-- `_SHARD_ID_RE.match(raw)`: its group.
abbrev pub match_shard_id : Str → Option Str
match_shard_id raw = elim (strip shard_prefix raw) [
  | some rest ↦ elim (digits_group rest) [
    | some digits ↦ if length digits == 0 then none else some digits
    | none ↦ none
  ]
  | none ↦ none
]

-- Each of its two `ValueError`s is one error.
unfoldable pub parse_shard_id : Str → Result FetchError ℕ
unfolding int_of_digits
parse_shard_id raw = elim (match_shard_id raw) [
  | some digits ↦ elim (int_of_digits digits) [
    | ok value ↦ ok value
    | err e ↦ err malformed_shard_id
  ]
  | none ↦ err malformed_shard_id
]

-- `_parse_hash_key` has the body of `parse_explicit_hash_key`.
unfoldable pub parse_hash_key : Str → Result FetchError ℕ
unfolding parse_explicit_hash_key
parse_hash_key s = elim (parse_explicit_hash_key s) [
  | ok value ↦ ok value
  | err e ↦ err (bad_hash_key e)
]

unfoldable pub build_shard : RawShard → Result FetchError Shard
unfolding parse_shard_id parse_hash_key
build_shard raw = do
  shard_id ← parse_shard_id raw.raw_id
  start ← parse_hash_key raw.starting
  end ← parse_hash_key raw.ending
  raise_if (ltb end start) inverted_range
  ok record {
    shard_id = shard_id;
    raw_shard_id = raw.raw_id;
    starting_hash_key = start;
    ending_hash_key = end;
  }
