-- ===== src/Attempt.antt =====
-- aiokpl/result.py: the terminal outcome of a record, and the trips that led to it. The times are
-- microseconds.
use aiokpl.Common.{ℕ, Bool, Option, List}
use aiokpl.Aggregation.Types.{Str}

pub record Attempt : Type 0 where
  pub started_at : ℕ
  pub ended_at : ℕ
  pub success : Bool
  pub shard_id : Option Str
  pub sequence_number : Option Str
  pub error_code : Option Str
  pub error_message : Option Str

pub record RecordResult : Type 0 where
  pub success : Bool
  pub shard_id : Option Str
  pub sequence_number : Option Str
  pub attempts : List Attempt
