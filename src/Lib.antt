-- ===== src/Lib.antt =====
-- aiokpl: the data path of an asyncio producer for Kinesis, which packs user records into the
-- aggregated wire format of the KPL and sends them in batches.
--
-- The way of a record: aiokpl/aggregator.py buffers it with the records of the same predicted shard
-- in an `AggregatedBatch`, a reducer (aiokpl/reducer.py) closes that batch by its limits or its
-- deadline, aiokpl/collector.py puts closed batches into a `PutRecordsBatch` through a second
-- reducer, and each batch is sent as bytes of the codec (aiokpl/aggregation.py). A token bucket
-- (aiokpl/token_bucket.py) bounds what a shard is sent, and aiokpl/hashing.py gives the hash keys.
-- aiokpl/producer.py joins the stages by callbacks: it admits a record while it has permits,
-- registers its outcome in the pending table of its stream, and settles the outcome when the retrier
-- (aiokpl/retrier.py) finishes the record. aiokpl/metrics.py counts over rolling windows.
--
-- The modules, and what each is of:
--   Common            helpers: results, loops on fuel, equality, dicts, lists.
--   Aggregation       aiokpl/aggregation.py: Varint `_encode_varint`, `_decode_varint`; Fields
--                     `_encode_tag`, `_encode_length_delimited`, `_encode_uint64_field`,
--                     `_skip_unknown`; TagMessage and RecordMessage the two inner messages; Builder
--                     `_AggregatedBuilder`; Codec `is_aggregated`, `encode_aggregated`,
--                     `decode_aggregated`; Utf8 the `str.encode` and `bytes.decode` they call.
--   TokenBucket       aiokpl/token_bucket.py: `TokenBucket` with its streams.
--   Time              times, deadlines and `max(0.0, deadline - now)`.
--   Reducer           aiokpl/reducer.py: `Reducer` over any batch (Interface is the `Batch` protocol
--                     with the laws that a reducer relies on).
--   Hashing           aiokpl/hashing.py: `md5_hash_key`, `parse_explicit_hash_key`.
--   Attempt           aiokpl/result.py: `Attempt`, `RecordResult`.
--   ShardMap          aiokpl/shard_map.py: Parse the parsers, Fetch `_fetch_all_pages`, Bisect the
--                     `bisect_left` of the standard library, and the operations of `ShardMap`.
--   Batch             aiokpl/aggregator.py: `_BufferedRecord`, `AggregatedBatch`.
--   Aggregator        aiokpl/aggregator.py: `Aggregator`, a reducer for each predicted shard.
--   Collector         aiokpl/collector.py: `PutRecordsBatch`, `Collector`.
--   Limiter           aiokpl/limiter.py: `ShardLimiter`, and `Limiter` over them.
--   Sender            aiokpl/sender.py: `Sender.send` and its report.
--   Retrier           aiokpl/retrier.py: `Retrier.handle`, whose callbacks are a list of actions.
--   Outcome           aiokpl/outcome.py: `Outcome`.
--   Metrics           aiokpl/metrics.py: Window `_Accumulator`, Types `MetricKey` and the messages of
--                     aiokpl/sinks/_types.py, and `MetricsManager`.
--   CloudWatch        aiokpl/sinks/cloudwatch.py: `CloudWatchSink`.
--   Config            aiokpl/config.py: `Config`, and the arguments that `_build_pipeline` gives.
--   Pipeline          aiokpl/producer.py: `_StreamPipeline` and the callbacks of `_build_pipeline`,
--                     with Step the interleavings of its tasks; `_cancel` of aiokpl/sync.py.
--   Producer          aiokpl/producer.py: `Producer`, its permits and its pipelines.
--   Texts             the fixed texts of the sender and the retrier.
--
-- State is passed on explicitly: a method is a function from the state to its result and the state
-- after it, and a function that may raise returns a `Result` or an `Option`. Code under a lock is
-- one step, so that an interleaving of tasks is a list of steps. Texts are lists of code points,
-- byte strings are lists of numbers. Times are whole numbers of a small unit, where the source has
-- floating-point seconds.
--
-- The decoding loops run on fuel, one unit for each byte of the buffer: every round takes a byte at
-- least. The binary search has fuel for as many rounds as the list is long: every round narrows the
-- search. The loop of the CloudWatch sink has one unit for each datum: a request takes one at least.
-- The loops that write numbers recurse on the well-foundedness of `<`.
--
-- MD5 belongs to `hashlib` and is a parameter, a function from bytes to bytes, of which only the
-- length of the digest is assumed. The client of the service is a parameter of the sender, the
-- answers of `ListShards` are a list, and the sorted list of `sortedcontainers` is a parameter of the
-- shard limiter. The event loop, cancel scopes and locks of anyio are not modelled: a state records
-- the tasks that were started and the scopes that were cancelled, and a task of a pipeline is the list
-- of the jobs that it has yet to do in turn; any task may take the next step.
--
-- Not modelled: entering and leaving the producer (an exit stack over other libraries) and a
-- `put_record` that is cancelled or raises once its outcome is registered; the `UnicodeEncodeError`
-- of a text with a lone surrogate, wherever the source encodes one; leaving the aggregator and the
-- limiter, beyond `aclose`; the metrics that the stages emit, which are built without a manager; the
-- threads of aiokpl/sync.py; the other metric sinks, which are adapters to other libraries. The step
-- of a pipeline that takes the reply of the service is of a request that could be built.
pub mod Common
pub mod Aggregation
pub mod TokenBucket
pub mod Time
pub mod Reducer
pub mod Hashing
pub mod Attempt
pub mod Batch
pub mod Collector
pub mod ShardMap
pub mod Texts
pub mod Sender
pub mod Retrier
pub mod Metrics
pub mod Outcome
pub mod Aggregator
pub mod Limiter
pub mod Config
pub mod CloudWatch
pub mod Pipeline
pub mod Producer
