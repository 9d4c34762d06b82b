-- ===== src/Metrics/Texts.antt =====
-- The fixed texts of aiokpl/metrics.py, as code points.
use aiokpl.Common.{[], ◌∷◌}
use aiokpl.Aggregation.Types.{Str}

-- `"stream"`
abbrev pub stream_dimension : Str
stream_dimension = 115 ∷ 116 ∷ 114 ∷ 101 ∷ 97 ∷ 109 ∷ []

-- `"shard"`
abbrev pub shard_dimension : Str
shard_dimension = 115 ∷ 104 ∷ 97 ∷ 114 ∷ 100 ∷ []

-- `"error_code"`
abbrev pub error_code_dimension : Str
error_code_dimension = 101 ∷ 114 ∷ 114 ∷ 111 ∷ 114 ∷ 95 ∷ 99 ∷ 111 ∷ 100 ∷ 101 ∷ []

-- `"UserRecordsPending"`
abbrev pub user_records_pending : Str
user_records_pending =
    85 ∷ 115 ∷ 101 ∷ 114 ∷ 82 ∷ 101 ∷ 99 ∷ 111 ∷ 114 ∷ 100 ∷ 115 ∷ 80 ∷ 101 ∷ 110 ∷ 100 ∷ 105 ∷ 110
    ∷ 103 ∷ []

-- `"AllErrors"`
abbrev pub all_errors : Str
all_errors = 65 ∷ 108 ∷ 108 ∷ 69 ∷ 114 ∷ 114 ∷ 111 ∷ 114 ∷ 115 ∷ []
