-- ===== src/Retrier/Dispatch.antt =====
-- Every record of a report is finished or put again, once, in order.
use aiokpl.Common.{
  ℕ, ◌+◌, ◌-◌, ◌≡◌, refl, ap, ◌∙◌, inl, inr, Bool, true, false, ◌&&◌, Bool-cases, Option, none,
  some, Option-cases, List, [], ◌∷◌, ◌++◌, ltb, if◌then◌else◌, map, flat_map, flat_map-append,
}
use aiokpl.Common.Eq.{nat_Eq, list_Eq}
use aiokpl.Aggregation.Types.{Str, UserRecord}
use aiokpl.Batch.{BufferedRecord, AggregatedBatch}
use aiokpl.Sender.{PerRecordOutcome, SendOutcome}
use aiokpl.Sender.Aligned.{IsAligned}
use aiokpl.Texts.{
  provisioned_throughput_exceeded, wrong_shard_error_code, wrong_shard_error_message, unknown,
}
use aiokpl.Retrier.{
  RetrierConfig, Action, finish, retry, invalidate, parse_actual_shard_id, finish_success, fail,
  in_range, is_accepted, or_text, retry_not_expired, fail_or_retry, fail_items,
  handle_request_error, accept_all, check_range, check_all, handle_success, handle_per_record,
  handle_each, handle_by, handle,
}

-- What a record keeps through its retries.
abbrev pub Origin : Type 0
Origin = ℕ × UserRecord × ℕ × ℕ

abbrev pub origin : BufferedRecord → Origin
origin x = (x.identity, x.user_record, x.hash_key, x.arrival_time)

-- The record that an action settles.
abbrev pub settles : Action → List Origin
settles (finish x r) = origin x ∷ []
settles (retry x) = origin x ∷ []
settles (invalidate seen_at shard) = []

abbrev pub origins : List AggregatedBatch → List Origin
origins items = flat_map (λ ar. map origin ar.items) items

settles-if :
    (b : Bool) (x y : List Action × ℕ) (l : List Origin)
    → flat_map settles x.0 ≡ l
    → flat_map settles y.0 ≡ l
    → flat_map settles (if b then x else y).0 ≡ l
settles-if true x y l h k = h
settles-if false x y l h k = k

is_accepted-none : (predicted : Option ℕ) → is_accepted predicted none ≡ true
is_accepted-none none = refl
is_accepted-none (some predicted) = refl

module _ (cfg : RetrierConfig) (clock : ℕ → ℕ) (hashrange : ℕ → ℕ → Option (ℕ × ℕ)) where
  settles-finish_success :
      (o : SendOutcome) (x : BufferedRecord) (p : PerRecordOutcome)
      → settles (finish_success o x p) ≡ origin x ∷ []
  unfolding finish_success
  settles-finish_success o x p = refl

  settles-retry :
      (reads : ℕ) (o : SendOutcome) (x : BufferedRecord) (code message : Str)
      → settles (retry_not_expired cfg clock hashrange reads o x code message).0 ≡ origin x ∷ []
  unfolding retry_not_expired
  settles-retry reads o x code message =
      elim (Bool-cases (ltb cfg.record_ttl (clock reads - x.arrival_time))) [
        | inl e ↦ rw e refl
        | inr e ↦ rw e refl
      ]

  settles-fail_or_retry :
      (reads : ℕ) (o : SendOutcome) (x : BufferedRecord) (code message : Str)
      → settles (fail_or_retry cfg clock hashrange reads o x code message).0 ≡ origin x ∷ []
  unfolding fail_or_retry fail
  settles-fail_or_retry reads o x code message =
      elim (Bool-cases
        (list_Eq.equal code provisioned_throughput_exceeded && cfg.fail_if_throttled)) [
          | inl e ↦ rw e refl
          | inr e ↦ rw e (settles-retry reads o x code message)
        ]

  settles-fail_items :
      (reads : ℕ) (o : SendOutcome) (code message : Str) (xs : List BufferedRecord)
      → flat_map settles (fail_items cfg clock hashrange reads o code message xs).0 ≡ map origin xs
  unfolding fail_items
  settles-fail_items reads o code message [] = refl
  settles-fail_items reads o code message (x ∷ xs) =
      rw (settles-fail_or_retry reads o x code message) (
        ap (λ l. origin x ∷ l)
          (settles-fail_items (fail_or_retry cfg clock hashrange reads o x code message).1 o code
            message xs))

  settles-handle_request_error :
      (reads : ℕ) (o : SendOutcome) (code message : Str) (ars : List AggregatedBatch)
      → flat_map settles (handle_request_error cfg clock hashrange reads o code message ars).0
        ≡ origins ars
  unfolding handle_request_error
  settles-handle_request_error reads o code message [] = refl
  settles-handle_request_error reads o code message (ar ∷ ars) =
      let first = fail_items cfg clock hashrange reads o code message ar.items in
      let rest = handle_request_error cfg clock hashrange first.1 o code message ars in
      rw (flat_map-append settles first.0 rest.0, settles-fail_items reads o code message ar.items)
        (ap (λ l. map origin ar.items ++ l)
          (settles-handle_request_error first.1 o code message ars))

  settles-accept_all :
      (o : SendOutcome) (p : PerRecordOutcome) (xs : List BufferedRecord)
      → flat_map settles (accept_all o p xs) ≡ map origin xs
  unfolding accept_all finish_success
  settles-accept_all o p [] = refl
  settles-accept_all o p (x ∷ xs) = ap (λ l. origin x ∷ l) (settles-accept_all o p xs)

  settles-check_range :
      (reads : ℕ) (o : SendOutcome) (p : PerRecordOutcome) (actual_range : Option (ℕ × ℕ))
      (x : BufferedRecord)
      → settles (check_range cfg clock hashrange reads o p actual_range x).0 ≡ origin x ∷ []
  unfolding check_range
  settles-check_range reads o p actual_range x =
      elim (Bool-cases (in_range actual_range x.hash_key)) [
        | inl e ↦ rw e (settles-finish_success o x p)
        | inr e ↦ rw e (settles-retry reads o x wrong_shard_error_code wrong_shard_error_message)
      ]

  settles-check_all :
      (reads : ℕ) (o : SendOutcome) (p : PerRecordOutcome) (actual : ℕ)
      (actual_range : Option (ℕ × ℕ)) (told : Bool) (xs : List BufferedRecord)
      → flat_map settles (check_all cfg clock hashrange reads o p actual actual_range told xs).0
        ≡ map origin xs
  unfolding check_all
  settles-check_all reads o p actual actual_range told [] = refl
  settles-check_all reads o p actual actual_range told (x ∷ xs) =
      let reads' = (check_range cfg clock hashrange reads o p actual_range x).1 in
      let own = settles-check_range reads o p actual_range x in
      elim (Bool-cases told) [
        | inl e ↦
            rw (e, own)
              (ap (λ l. origin x ∷ l) (settles-check_all reads' o p actual actual_range true xs))
        | inr e ↦
            rw (e, own)
              (ap (λ l. origin x ∷ l)
                (settles-check_all (reads' + 1) o p actual actual_range true xs))
      ]

  settles-handle_success :
      (reads : ℕ) (o : SendOutcome) (p : PerRecordOutcome)
      → flat_map settles (handle_success cfg clock hashrange reads o p).0 ≡ map origin p.batch.items
  unfolding handle_success
  settles-handle_success reads o p =
      let actual_int = parse_actual_shard_id p.shard_id in
      elim (Bool-cases (is_accepted p.batch.predicted_shard actual_int)) [
        | inl e ↦ rw e (settles-accept_all o p p.batch.items)
        | inr e ↦ rw e (elim (Option-cases actual_int) [
          | inl gone ↦ absurd (cc (rw gone at e, is_accepted-none p.batch.predicted_shard))
          | inr (actual, there) ↦
              rw there
                (settles-check_all reads o p actual (hashrange reads actual) false p.batch.items)
        ])
      ]

  settles-handle_per_record :
      (reads : ℕ) (o : SendOutcome) (p : PerRecordOutcome)
      → flat_map settles (handle_per_record cfg clock hashrange reads o p).0
        ≡ map origin p.batch.items
  unfolding handle_per_record
  settles-handle_per_record reads o p =
      settles-if p.success _ _ (map origin p.batch.items) (settles-handle_success reads o p) (
        settles-fail_items reads o (or_text p.error_code unknown) (or_text p.error_message [])
          p.batch.items)

  settles-handle_each :
      (reads : ℕ) (o : SendOutcome) (ps : List PerRecordOutcome)
      → flat_map settles (handle_each cfg clock hashrange reads o ps).0
        ≡ origins (map (λ p. p.batch) ps)
  unfolding handle_each
  settles-handle_each reads o [] = refl
  settles-handle_each reads o (p ∷ ps) =
      let first = handle_per_record cfg clock hashrange reads o p in
      let rest = handle_each cfg clock hashrange first.1 o ps in
      rw (flat_map-append settles first.0 rest.0, settles-handle_per_record reads o p)
        (ap (λ l. map origin p.batch.items ++ l) (settles-handle_each first.1 o ps))

  settles-handle_by :
      (reads : ℕ) (items : List AggregatedBatch) (o : SendOutcome) (error : Option (Str × Str))
      → IsAligned items o
      → o.request_error ≡ error
      → flat_map settles (handle_by cfg clock hashrange reads o error).0 ≡ origins items
  unfolding handle_by
  settles-handle_by reads items o (some (code, message)) (same, h) e =
      settles-handle_request_error reads o code message o.batch_items ∙ ap origins same
  settles-handle_by reads items o none (same, inl (empty, failed)) e = absurd (failed e)
  settles-handle_by reads items o none (same, inr (aligned, fine)) e =
      settles-handle_each reads o o.per_record ∙ ap origins aligned

  -- For a report on `items` as the sender makes it, the actions finish or put again every record of
  -- the items exactly once, in order.
  pub handle-settles :
      (reads : ℕ) (items : List AggregatedBatch) (o : SendOutcome)
      → IsAligned items o
      → flat_map settles (handle cfg clock hashrange reads o).0 ≡ origins items
  unfolding handle
  handle-settles reads items o h = settles-handle_by reads items o o.request_error h refl
