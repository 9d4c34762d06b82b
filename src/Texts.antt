-- ===== src/Texts.antt =====
-- The fixed texts of aiokpl/sender.py and aiokpl/retrier.py, as code points.
use aiokpl.Common.{[], ◌∷◌}
use aiokpl.Aggregation.Types.{Str}

-- `"Internal"`
abbrev pub internal : Str
internal = 73 ∷ 110 ∷ 116 ∷ 101 ∷ 114 ∷ 110 ∷ 97 ∷ 108 ∷ []

-- `"RecordCountMismatch"`
abbrev pub record_count_mismatch : Str
record_count_mismatch =
    82 ∷ 101 ∷ 99 ∷ 111 ∷ 114 ∷ 100 ∷ 67 ∷ 111 ∷ 117 ∷ 110 ∷ 116 ∷ 77 ∷ 105 ∷ 115 ∷ 109 ∷ 97 ∷ 116
    ∷ 99 ∷ 104 ∷ []

-- `"PutRecords returned "`
abbrev pub mismatch_returned : Str
mismatch_returned =
    80 ∷ 117 ∷ 116 ∷ 82 ∷ 101 ∷ 99 ∷ 111 ∷ 114 ∷ 100 ∷ 115 ∷ 32 ∷ 114 ∷ 101 ∷ 116 ∷ 117 ∷ 114 ∷ 110
    ∷ 101 ∷ 100 ∷ 32 ∷ []

-- `" records for a batch of "`
abbrev pub mismatch_records : Str
mismatch_records =
    32 ∷ 114 ∷ 101 ∷ 99 ∷ 111 ∷ 114 ∷ 100 ∷ 115 ∷ 32 ∷ 102 ∷ 111 ∷ 114 ∷ 32 ∷ 97 ∷ 32 ∷ 98 ∷ 97
    ∷ 116 ∷ 99 ∷ 104 ∷ 32 ∷ 111 ∷ 102 ∷ 32 ∷ []

-- `"ProvisionedThroughputExceededException"`
abbrev pub provisioned_throughput_exceeded : Str
provisioned_throughput_exceeded =
    80 ∷ 114 ∷ 111 ∷ 118 ∷ 105 ∷ 115 ∷ 105 ∷ 111 ∷ 110 ∷ 101 ∷ 100 ∷ 84 ∷ 104 ∷ 114 ∷ 111 ∷ 117
    ∷ 103 ∷ 104 ∷ 112 ∷ 117 ∷ 116 ∷ 69 ∷ 120 ∷ 99 ∷ 101 ∷ 101 ∷ 100 ∷ 101 ∷ 100 ∷ 69 ∷ 120 ∷ 99
    ∷ 101 ∷ 112 ∷ 116 ∷ 105 ∷ 111 ∷ 110 ∷ []

-- `"Expired"`
abbrev pub expired_error_code : Str
expired_error_code = 69 ∷ 120 ∷ 112 ∷ 105 ∷ 114 ∷ 101 ∷ 100 ∷ []

-- `"Record TTL exceeded"`
abbrev pub expired_error_message : Str
expired_error_message =
    82 ∷ 101 ∷ 99 ∷ 111 ∷ 114 ∷ 100 ∷ 32 ∷ 84 ∷ 84 ∷ 76 ∷ 32 ∷ 101 ∷ 120 ∷ 99 ∷ 101 ∷ 101 ∷ 100
    ∷ 101 ∷ 100 ∷ []

-- `"Wrong Shard"`
abbrev pub wrong_shard_error_code : Str
wrong_shard_error_code = 87 ∷ 114 ∷ 111 ∷ 110 ∷ 103 ∷ 32 ∷ 83 ∷ 104 ∷ 97 ∷ 114 ∷ 100 ∷ []

-- `"Unknown"`
abbrev pub unknown : Str
unknown = 85 ∷ 110 ∷ 107 ∷ 110 ∷ 111 ∷ 119 ∷ 110 ∷ []

-- `"Record landed on a shard whose hash range does not contain the record's hash key"`
abbrev pub wrong_shard_error_message : Str
wrong_shard_error_message =
    82 ∷ 101 ∷ 99 ∷ 111 ∷ 114 ∷ 100 ∷ 32 ∷ 108 ∷ 97 ∷ 110 ∷ 100 ∷ 101 ∷ 100 ∷ 32 ∷ 111 ∷ 110 ∷ 32
    ∷ 97 ∷ 32 ∷ 115 ∷ 104 ∷ 97 ∷ 114 ∷ 100 ∷ 32 ∷ 119 ∷ 104 ∷ 111 ∷ 115 ∷ 101 ∷ 32 ∷ 104 ∷ 97 ∷ 115
    ∷ 104 ∷ 32 ∷ 114 ∷ 97 ∷ 110 ∷ 103 ∷ 101 ∷ 32 ∷ 100 ∷ 111 ∷ 101 ∷ 115 ∷ 32 ∷ 110 ∷ 111 ∷ 116 ∷ 32
    ∷ 99 ∷ 111 ∷ 110 ∷ 116 ∷ 97 ∷ 105 ∷ 110 ∷ 32 ∷ 116 ∷ 104 ∷ 101 ∷ 32 ∷ 114 ∷ 101 ∷ 99 ∷ 111 ∷ 114
    ∷ 100 ∷ 39 ∷ 115 ∷ 32 ∷ 104 ∷ 97 ∷ 115 ∷ 104 ∷ 32 ∷ 107 ∷ 101 ∷ 121 ∷ []
