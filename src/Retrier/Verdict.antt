-- ===== src/Retrier/Verdict.antt =====
-- What each action of the retrier says of its record.
use aiokpl.Common.{
  ℕ, ◌+◌, ◌-◌, ◌/◌, ◌≤◌, ◌≡◌, refl, inl, inr, Bool, true, false, ◌&&◌, Bool-cases, Option, none,
  some, List, [], ◌∷◌, ◌++◌, arith, ltb, if◌then◌else◌, All, All-append,
}
use aiokpl.Common.Eq.{nat_Eq, list_Eq}
use aiokpl.Aggregation.Types.{Str}
use aiokpl.Attempt.{Attempt}
use aiokpl.Batch.{BufferedRecord, AggregatedBatch}
use aiokpl.Sender.{PerRecordOutcome, SendOutcome}
use aiokpl.Texts.{
  provisioned_throughput_exceeded, wrong_shard_error_code, wrong_shard_error_message, unknown,
}
use aiokpl.Retrier.{
  RetrierConfig, Action, finish, retry, invalidate, parse_actual_shard_id, finish_success, fail,
  in_range, is_accepted, or_text, retry_not_expired, fail_or_retry, fail_items,
  handle_request_error, accept_all, check_range, check_all, check_found, handle_success,
  handle_per_record, handle_each, handle_by, handle,
}

-- The history ends with an attempt that had this success.
pub record EndsWith (attempts : List Attempt) (success : Bool) : Type 0 where
  pub before : List Attempt
  pub last : Attempt
  pub whole : attempts ≡ before ++ last ∷ []
  pub outcome : last.success ≡ success

-- A record that is put again at the time `now`.
pub record IsPostponed (cfg : RetrierConfig) (x : BufferedRecord) : Type 0 where
  pub now : ℕ
  pub due : x.deadline ≡ now + cfg.retry_deadline / 2
  pub fresh : now - x.arrival_time ≤ cfg.record_ttl
  pub history : EndsWith x.attempts false

-- A finished record has the history that its result has, which ends as the result says. A record
-- that is put again is not expired, has a new deadline, and a history that ends with a failure.
abbrev pub IsSound : RetrierConfig → Action → Type 0
IsSound cfg (finish x r) = (x.attempts ≡ r.attempts) × EndsWith r.attempts r.success
IsSound cfg (retry x) = IsPostponed cfg x
IsSound cfg (invalidate seen_at shard) = Unit

ends : (before : List Attempt) (last : Attempt) → EndsWith (before ++ last ∷ []) last.success
ends before last = record { before = before; last = last; whole = refl; outcome = refl }

module _ (cfg : RetrierConfig) where
  IsSound-if :
      (b : Bool) (x y : List Action × ℕ)
      → All (IsSound cfg) x.0
      → All (IsSound cfg) y.0
      → All (IsSound cfg) (if b then x else y).0
  IsSound-if true x y h k = h
  IsSound-if false x y h k = k

  finish_success-IsSound :
      (o : SendOutcome) (x : BufferedRecord) (p : PerRecordOutcome)
      → IsSound cfg (finish_success o x p)
  unfolding finish_success
  finish_success-IsSound o x p = (refl, ends x.attempts _)

  accept_all-IsSound :
      (o : SendOutcome) (p : PerRecordOutcome) (xs : List BufferedRecord)
      → All (IsSound cfg) (accept_all o p xs)
  unfolding accept_all
  accept_all-IsSound o p [] = tt
  accept_all-IsSound o p (x ∷ xs) = (finish_success-IsSound o x p, accept_all-IsSound o p xs)

module _ (cfg : RetrierConfig) (clock : ℕ → ℕ) (hashrange : ℕ → ℕ → Option (ℕ × ℕ)) where
  retry-IsSound :
      (reads : ℕ) (o : SendOutcome) (x : BufferedRecord) (code message : Str)
      → IsSound cfg (retry_not_expired cfg clock hashrange reads o x code message).0
  unfolding retry_not_expired
  retry-IsSound reads o x code message =
      elim (Bool-cases (ltb cfg.record_ttl (clock reads - x.arrival_time))) [
        | inl e ↦ rw e (refl, ends _ _)
        | inr e ↦
            rw e record { now = clock reads; due = refl; fresh = ground arith; history = ends _ _ }
      ]

  fail_or_retry-IsSound :
      (reads : ℕ) (o : SendOutcome) (x : BufferedRecord) (code message : Str)
      → IsSound cfg (fail_or_retry cfg clock hashrange reads o x code message).0
  unfolding fail_or_retry fail
  fail_or_retry-IsSound reads o x code message =
      elim (Bool-cases
        (list_Eq.equal code provisioned_throughput_exceeded && cfg.fail_if_throttled)) [
          | inl e ↦ rw e (refl, ends _ _)
          | inr e ↦ rw e (retry-IsSound reads o x code message)
        ]

  fail_items-IsSound :
      (reads : ℕ) (o : SendOutcome) (code message : Str) (xs : List BufferedRecord)
      → All (IsSound cfg) (fail_items cfg clock hashrange reads o code message xs).0
  unfolding fail_items
  fail_items-IsSound reads o code message [] = tt
  fail_items-IsSound reads o code message (x ∷ xs) = (
    fail_or_retry-IsSound reads o x code message,
    fail_items-IsSound (fail_or_retry cfg clock hashrange reads o x code message).1 o code message
        xs,
  )

  handle_request_error-IsSound :
      (reads : ℕ) (o : SendOutcome) (code message : Str) (ars : List AggregatedBatch)
      → All (IsSound cfg) (handle_request_error cfg clock hashrange reads o code message ars).0
  unfolding handle_request_error
  handle_request_error-IsSound reads o code message [] = tt
  handle_request_error-IsSound reads o code message (ar ∷ ars) =
      let first = fail_items cfg clock hashrange reads o code message ar.items in
      All-append (IsSound cfg) first.0
        (handle_request_error cfg clock hashrange first.1 o code message ars).0
        (fail_items-IsSound reads o code message ar.items)
        (handle_request_error-IsSound first.1 o code message ars)

  check_range-IsSound :
      (reads : ℕ) (o : SendOutcome) (p : PerRecordOutcome) (actual_range : Option (ℕ × ℕ))
      (x : BufferedRecord)
      → IsSound cfg (check_range cfg clock hashrange reads o p actual_range x).0
  unfolding check_range
  check_range-IsSound reads o p actual_range x =
      elim (Bool-cases (in_range actual_range x.hash_key)) [
        | inl e ↦ rw e (finish_success-IsSound cfg o x p)
        | inr e ↦ rw e (retry-IsSound reads o x wrong_shard_error_code wrong_shard_error_message)
      ]

  check_all-IsSound :
      (reads : ℕ) (o : SendOutcome) (p : PerRecordOutcome) (actual : ℕ)
      (actual_range : Option (ℕ × ℕ)) (told : Bool) (xs : List BufferedRecord)
      → All (IsSound cfg) (check_all cfg clock hashrange reads o p actual actual_range told xs).0
  unfolding check_all
  check_all-IsSound reads o p actual actual_range told [] = tt
  check_all-IsSound reads o p actual actual_range told (x ∷ xs) =
      let reads' = (check_range cfg clock hashrange reads o p actual_range x).1 in
      let own = check_range-IsSound reads o p actual_range x in
      IsSound-if cfg told _ _ (own, check_all-IsSound reads' o p actual actual_range true xs)
        (own, (tt, check_all-IsSound (reads' + 1) o p actual actual_range true xs))

  found-IsSound :
      (reads : ℕ) (o : SendOutcome) (p : PerRecordOutcome) (actual_int : Option ℕ)
      → All (IsSound cfg) (check_found cfg clock hashrange reads o p actual_int).0
  found-IsSound reads o p none = tt
  found-IsSound reads o p (some actual) =
      check_all-IsSound reads o p actual (hashrange reads actual) false p.batch.items

  handle_per_record-IsSound :
      (reads : ℕ) (o : SendOutcome) (p : PerRecordOutcome)
      → All (IsSound cfg) (handle_per_record cfg clock hashrange reads o p).0
  unfolding handle_per_record handle_success
  handle_per_record-IsSound reads o p =
      IsSound-if cfg p.success _ _
        (IsSound-if cfg (is_accepted p.batch.predicted_shard (parse_actual_shard_id p.shard_id)) _ _
          (accept_all-IsSound cfg o p p.batch.items)
          (found-IsSound reads o p (parse_actual_shard_id p.shard_id)))
        (fail_items-IsSound reads o (or_text p.error_code unknown) (or_text p.error_message [])
          p.batch.items)

  handle_each-IsSound :
      (reads : ℕ) (o : SendOutcome) (ps : List PerRecordOutcome)
      → All (IsSound cfg) (handle_each cfg clock hashrange reads o ps).0
  unfolding handle_each
  handle_each-IsSound reads o [] = tt
  handle_each-IsSound reads o (p ∷ ps) =
      let first = handle_per_record cfg clock hashrange reads o p in
      All-append (IsSound cfg) first.0 (handle_each cfg clock hashrange first.1 o ps).0
        (handle_per_record-IsSound reads o p) (handle_each-IsSound first.1 o ps)

  -- Every action on a report is sound: a finished record has the history that its result has, which
  -- ends with a success if and only if the result is one; a record that is put again is within its
  -- time to live at some time `now`, is due half of the retry deadline later, and its history ends
  -- with a failure.
  pub handle-IsSound :
      (reads : ℕ) (o : SendOutcome) → All (IsSound cfg) (handle cfg clock hashrange reads o).0
  unfolding handle handle_by
  handle-IsSound reads o = by_error o.request_error
    where
      by_error :
          (error : Option (Str × Str))
          → All (IsSound cfg) (handle_by cfg clock hashrange reads o error).0
      by_error (some (code, message)) =
          handle_request_error-IsSound reads o code message o.batch_items
      by_error none = handle_each-IsSound reads o o.per_record
