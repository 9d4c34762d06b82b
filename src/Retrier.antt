-- ===== src/Retrier.antt =====
-- aiokpl/retrier.py: what becomes of each record of a report of the sender. The callbacks
-- `on_finish`, `on_retry` and `ShardMap.invalidate` are the actions that come out, in order. The
-- clock is a function of how many times it was read, and `hashrange` of the shard map may answer
-- otherwise after each reading. Metrics are left out, as with `metrics=None`. The digits of a shard
-- id are the ten of ASCII.
pub mod Dispatch
pub mod Verdict
mod Tests
use aiokpl.Common.{
  ℕ, zero, suc, ◌+◌, ◌-◌, ◌/◌, Bool, true, false, not, ◌&&◌, ◌||◌, Option, none, some, List, [],
  ◌∷◌, ◌++◌, leb, ltb, ◌==◌, if◌then◌else◌, length,
}
use aiokpl.Common.Eq.{Eq, nat_Eq, list_Eq}
use aiokpl.Aggregation.Types.{Str}
use aiokpl.Hashing.{is_digit, all_of, digits_value}
use aiokpl.ShardMap.Parse.{shard_prefix, strip}
use aiokpl.Attempt.{Attempt, RecordResult}
use aiokpl.Texts.{
  provisioned_throughput_exceeded, expired_error_code, expired_error_message,
  wrong_shard_error_code, wrong_shard_error_message, unknown,
}
use aiokpl.Batch.{BufferedRecord, AggregatedBatch}
use aiokpl.Sender.{PerRecordOutcome, SendOutcome}

pub record RetrierConfig : Type 0 where
  pub record_ttl : ℕ
  pub fail_if_throttled : Bool
  -- `retry_deadline_ms`, which the constructor halves.
  pub retry_deadline : ℕ

pub data Action : Type 0 where
  finish : BufferedRecord → RecordResult → Action
  retry : BufferedRecord → Action
  invalidate : ℕ → Option ℕ → Action

-- `_parse_actual_shard_id`, for a shard id below the limit of `int`, 4300 digits: the service has 128
-- characters at most.
unfoldable pub parse_actual_shard_id : Option Str → Option ℕ
unfolding digits_value
parse_actual_shard_id none = none
parse_actual_shard_id (some shard_id) = elim (strip shard_prefix shard_id) [
  | some suffix ↦
      if length suffix == 0 || not (all_of is_digit suffix)
      then none
      else some (digits_value suffix)
  | none ↦ none
]

-- `buffered.attempts.append(attempt)`
abbrev pub append_attempt : Attempt → BufferedRecord → BufferedRecord
append_attempt attempt x = record x { attempts = x.attempts ++ attempt ∷ [] }

abbrev pub failure : ℕ → ℕ → Str → Str → Attempt
failure started_at ended_at code message = record {
  started_at = started_at;
  ended_at = ended_at;
  success = false;
  shard_id = none;
  sequence_number = none;
  error_code = some code;
  error_message = some message;
}

abbrev pub failed_result : BufferedRecord → RecordResult
failed_result x = record {
  success = false;
  shard_id = none;
  sequence_number = none;
  attempts = x.attempts;
}

-- `_finish_success`
unfoldable pub finish_success : SendOutcome → BufferedRecord → PerRecordOutcome → Action
finish_success o x p =
    let x' =
      append_attempt
        record {
          started_at = o.started_at;
          ended_at = o.ended_at;
          success = true;
          shard_id = p.shard_id;
          sequence_number = p.sequence_number;
          error_code = none;
          error_message = none;
        }
        x in
    finish x' record {
      success = true;
      shard_id = p.shard_id;
      sequence_number = p.sequence_number;
      attempts = x'.attempts;
    }

-- `_fail`
unfoldable pub fail : SendOutcome → BufferedRecord → Str → Str → Action
fail o x code message =
    let x' = append_attempt (failure o.started_at o.ended_at code message) x in
    finish x' (failed_result x')

-- `actual_range is not None and actual_range[0] <= hash_key <= actual_range[1]`
abbrev pub in_range : Option (ℕ × ℕ) → ℕ → Bool
in_range none hash_key = false
in_range (some (low, high)) hash_key = leb low hash_key && leb hash_key high

-- `predicted is None or actual_int is None or predicted == actual_int`
abbrev pub is_accepted : Option ℕ → Option ℕ → Bool
is_accepted (some predicted) (some actual) = predicted == actual
is_accepted predicted actual = true

-- `error_code or "Unknown"`, `error_message or ""`
abbrev pub or_text : Option Str → Str → Str
or_text none default = default
or_text (some []) default = default
or_text (some (c ∷ s)) default = c ∷ s

-- The first loop of `_handle_success`.
unfoldable pub accept_all : SendOutcome → PerRecordOutcome → List BufferedRecord → List Action
unfolding finish_success
accept_all o p [] = []
accept_all o p (x ∷ xs) = finish_success o x p ∷ accept_all o p xs

module _ (cfg : RetrierConfig) (clock : ℕ → ℕ) (hashrange : ℕ → ℕ → Option (ℕ × ℕ)) where
  -- `_retry_not_expired`
  unfoldable pub retry_not_expired : ℕ → SendOutcome → BufferedRecord → Str → Str → Action × ℕ
  retry_not_expired reads o x code message =
      let x' = append_attempt (failure o.started_at o.ended_at code message) x in
      let now = clock reads in
      if ltb cfg.record_ttl (now - x.arrival_time)
      then (let x'' =
            append_attempt (failure now now expired_error_code expired_error_message) x' in
          (finish x'' (failed_result x''), reads + 1))
      else (retry (record x' { deadline = now + cfg.retry_deadline / 2 }), reads + 1)

  -- The branch on `throttled and self._fail_if_throttled`.
  unfoldable pub fail_or_retry : ℕ → SendOutcome → BufferedRecord → Str → Str → Action × ℕ
  unfolding fail retry_not_expired
  fail_or_retry reads o x code message =
      if list_Eq.equal code provisioned_throughput_exceeded && cfg.fail_if_throttled
      then (fail o x code message, reads)
      else retry_not_expired reads o x code message

  -- The loop over the records of a failed item.
  unfoldable pub fail_items : ℕ → SendOutcome → Str → Str → List BufferedRecord → List Action × ℕ
  unfolding fail_or_retry
  fail_items reads o code message [] = ([], reads)
  fail_items reads o code message (x ∷ xs) =
      let (action, reads') = fail_or_retry reads o x code message in
      let (actions, reads'') = fail_items reads' o code message xs in (action ∷ actions, reads'')

  -- `_handle_request_error`
  unfoldable pub handle_request_error :
      ℕ → SendOutcome → Str → Str → List AggregatedBatch → List Action × ℕ
  unfolding fail_items
  handle_request_error reads o code message [] = ([], reads)
  handle_request_error reads o code message (ar ∷ ars) =
      let (actions, reads') = fail_items reads o code message ar.items in
      let (more, reads'') = handle_request_error reads' o code message ars in
      (actions ++ more, reads'')

  -- A record that landed on another shard than predicted.
  unfoldable pub check_range :
      ℕ → SendOutcome → PerRecordOutcome → Option (ℕ × ℕ) → BufferedRecord → Action × ℕ
  unfolding finish_success retry_not_expired
  check_range reads o p actual_range x =
      if in_range actual_range x.hash_key
      then (finish_success o x p, reads)
      else retry_not_expired reads o x wrong_shard_error_code wrong_shard_error_message

  -- The second loop of `_handle_success`; the flag says whether the map was invalidated.
  unfoldable pub check_all :
      ℕ
      → SendOutcome
      → PerRecordOutcome
      → ℕ
      → Option (ℕ × ℕ)
      → Bool
      → List BufferedRecord
      → List Action × ℕ
  unfolding check_range
  check_all reads o p actual actual_range invalidated [] = ([], reads)
  check_all reads o p actual actual_range invalidated (x ∷ xs) =
      let (action, reads') = check_range reads o p actual_range x in
      let (same, reads1) = check_all reads' o p actual actual_range true xs in
      let (told, reads2) = check_all (reads' + 1) o p actual actual_range true xs in
      if invalidated
      then (action ∷ same, reads1)
      else (action ∷ invalidate (clock reads') (some actual) ∷ told, reads2)

  -- `_handle_success` behind its first `return`, where the actual shard is known.
  abbrev pub check_found : ℕ → SendOutcome → PerRecordOutcome → Option ℕ → List Action × ℕ
  check_found reads o p (some actual) =
      check_all reads o p actual (hashrange reads actual) false p.batch.items
  check_found reads o p none = ([], reads)

  -- `_handle_success`
  unfoldable pub handle_success : ℕ → SendOutcome → PerRecordOutcome → List Action × ℕ
  unfolding accept_all check_all parse_actual_shard_id
  handle_success reads o p =
      let actual_int = parse_actual_shard_id p.shard_id in
      if is_accepted p.batch.predicted_shard actual_int
      then (accept_all o p p.batch.items, reads)
      else check_found reads o p actual_int

  -- `_handle_per_record`
  unfoldable pub handle_per_record : ℕ → SendOutcome → PerRecordOutcome → List Action × ℕ
  unfolding handle_success fail_items
  handle_per_record reads o p =
      if p.success
      then handle_success reads o p
      else fail_items reads o (or_text p.error_code unknown) (or_text p.error_message [])
          p.batch.items

  -- The loop of `handle` over the outcomes.
  unfoldable pub handle_each : ℕ → SendOutcome → List PerRecordOutcome → List Action × ℕ
  unfolding handle_per_record
  handle_each reads o [] = ([], reads)
  handle_each reads o (p ∷ ps) =
      let (actions, reads') = handle_per_record reads o p in
      let (more, reads'') = handle_each reads' o ps in (actions ++ more, reads'')

  -- `handle`, by its `if` on the error of the request.
  unfoldable pub handle_by : ℕ → SendOutcome → Option (Str × Str) → List Action × ℕ
  unfolding handle_request_error handle_each
  handle_by reads o (some (code, message)) = handle_request_error reads o code message o.batch_items
  handle_by reads o none = handle_each reads o o.per_record

  unfoldable pub handle : ℕ → SendOutcome → List Action × ℕ
  unfolding handle_by
  handle reads o = handle_by reads o o.request_error
