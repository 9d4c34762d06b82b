-- ===== src/Config.antt =====
-- aiokpl/config.py: `Config`, the fields that the data path reads, and how
-- `Producer._build_pipeline` hands them to the stages. Durations are milliseconds, as whole
-- numbers; the stages take microseconds. Credentials, endpoints and the metrics sink go to other
-- libraries.
use aiokpl.Common.{ℕ, ◌*◌, Bool, true, false}
use aiokpl.Aggregator.{AggregatorConfig}
use aiokpl.Limiter.{LimiterConfig}
use aiokpl.Retrier.{RetrierConfig}

pub record Config : Type 0 where
  pub aggregation_enabled : Bool
  pub aggregation_max_count : ℕ
  pub aggregation_max_size : ℕ
  pub record_max_buffered_time_ms : ℕ
  pub record_ttl_ms : ℕ
  pub collection_max_count : ℕ
  pub collection_max_size : ℕ
  pub rate_limit_records_per_sec_per_shard : ℕ
  pub rate_limit_bytes_per_sec_per_shard : ℕ
  pub drain_interval_ms : ℕ
  pub fail_if_throttled : Bool
  pub retry_deadline_ms : ℕ
  pub max_outstanding_records : ℕ

-- The defaults of the dataclass.
abbrev pub default_config : Config
default_config = record {
  aggregation_enabled = true;
  aggregation_max_count = 4294967295;
  aggregation_max_size = 51200;
  record_max_buffered_time_ms = 100;
  record_ttl_ms = 30000;
  collection_max_count = 500;
  collection_max_size = 5 * 1024 * 1024;
  rate_limit_records_per_sec_per_shard = 1000;
  rate_limit_bytes_per_sec_per_shard = 1048576;
  drain_interval_ms = 25;
  fail_if_throttled = false;
  retry_deadline_ms = 50;
  max_outstanding_records = 100000;
}

module _ (cfg : Config) where
  -- The arguments of `Aggregator`.
  abbrev pub aggregator_config : AggregatorConfig
  aggregator_config = record {
    aggregation_enabled = cfg.aggregation_enabled;
    buffered_time = cfg.record_max_buffered_time_ms * 1000;
    aggregation_max_count = cfg.aggregation_max_count;
    aggregation_max_size = cfg.aggregation_max_size;
  }

  -- The arguments of `Limiter`.
  abbrev pub limiter_config : LimiterConfig
  limiter_config = record {
    records_per_sec = cfg.rate_limit_records_per_sec_per_shard;
    bytes_per_sec = cfg.rate_limit_bytes_per_sec_per_shard;
    expiration = cfg.record_ttl_ms * 1000;
  }

  -- The arguments of `Retrier`.
  abbrev pub retrier_config : RetrierConfig
  retrier_config = record {
    record_ttl = cfg.record_ttl_ms * 1000;
    fail_if_throttled = cfg.fail_if_throttled;
    retry_deadline = cfg.retry_deadline_ms * 1000;
  }
