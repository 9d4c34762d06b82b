-- ===== src/Sender/Aligned.antt =====
-- The report of the sender lists the batches that it was given.
use mathlib.Core.Path.{subst}
use aiokpl.Common.{
  ℕ, ◌≡◌, ◌≢◌, refl, ap, ◌⊎◌, inl, inr, Bool-cases, none, List, [], ◌∷◌, arith, ◌==◌, length, map,
}
use aiokpl.Common.Result.{Result, ok, err, raise_if, >>=-eq-ok}
use aiokpl.Aggregation.Types.{Bytes, Str}
use aiokpl.Batch.{AggregatedBatch}
use aiokpl.Collector.{PutRecordsBatch}
use aiokpl.Sender.{
  SendOutcome, Entry, Slot, Reply, raised, responded, SendError, empty_batch, build_per_record,
  build_all, entries, report, send,
}

-- The report is one error for all, or one slot for each batch, in order.
abbrev pub IsAligned : List AggregatedBatch → SendOutcome → Type 0
IsAligned items o =
    (o.batch_items ≡ items)
    × (((o.per_record ≡ []) × (o.request_error ≢ none))
        ⊎ ((map (λ p. p.batch) o.per_record ≡ items) × (o.request_error ≡ none)))

batch-build_per_record :
    (ar : AggregatedBatch) (slot : Slot) → (build_per_record ar slot).batch ≡ ar
unfolding build_per_record
batch-build_per_record ar slot = ground arith

map-build_all :
    (ars : List AggregatedBatch) (slots : List Slot)
    → length slots ≡ length ars
    → map (λ p. p.batch) (build_all ars slots) ≡ ars
unfolding build_all
map-build_all [] slots h = refl
map-build_all (ar ∷ ars) [] h = absurd (omega (arith, h))
map-build_all (ar ∷ ars) (slot ∷ slots) h =
    rw (batch-build_per_record ar slot)
      (ap (λ l. ar ∷ l) (map-build_all ars slots (omega (arith, h))))

report-IsAligned :
    (stream_name : Str) (started_at ended_at : ℕ) (items : List AggregatedBatch) (reply : Reply)
    → IsAligned items (report stream_name started_at ended_at items reply)
unfolding report
report-IsAligned stream_name started_at ended_at items (raised exc) = (refl, inl (refl, λ e. cc e))
report-IsAligned stream_name started_at ended_at items (responded slots) =
    elim (Bool-cases (length slots == length items)) [
      | inl e ↦ rw e (refl, inr (map-build_all items slots (ground (arith, e)), refl))
      | inr e ↦ rw e (refl, inl (refl, λ x. cc x))
    ]

-- A call of `send` that does not raise reports on the items of the batch, whatever the client
-- replies: an error of the whole request, or an outcome for each item in its order.
pub send-IsAligned :
    (md5 : Bytes → Bytes) (stream_name : Str) (put_records : List Entry → Reply)
    (started_at ended_at : ℕ) (batch : PutRecordsBatch) (o : SendOutcome)
    → send md5 stream_name put_records started_at ended_at batch ≡ ok o
    → IsAligned batch.items o
unfolding send
send-IsAligned md5 stream_name put_records started_at ended_at batch o h =
    let (u, full, h1) = >>=-eq-ok (raise_if (length batch.items == 0) empty_batch) _ h in
    let (records, built, h2) = >>=-eq-ok (entries md5 batch.items) _ h1 in
    subst
      (λ (r : Result SendError SendOutcome). elim r [
        | ok a ↦ IsAligned batch.items a
        | err e ↦ Unit
      ])
      h2 (report-IsAligned stream_name started_at ended_at batch.items (put_records records))
