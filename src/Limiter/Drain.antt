-- ===== src/Limiter/Drain.antt =====
-- `drain` loses no batch, keeps the order of the queue, and always returns.
use mathlib.Core.List.{Perm, perm_middle}
use mathlib.Core.List.Perm
use aiokpl.Common.{
  ℕ, ◌≤◌, ◌<◌, All, ◌+◌, ◌≡◌, refl, ap, inl, inr, Bool, true, false, Bool-cases, List, [], ◌∷◌,
  ◌++◌, arith, leb, ◌==◌, if◌then◌else◌, length, map,
}
use native.Mathlib.Bridge.{le_prop}
use aiokpl.Common.Total.{All-Perm}
use aiokpl.Common.Result.{ok}
use aiokpl.Batch.{AggregatedBatch, earliest}
use aiokpl.Time.{Deadline}
use aiokpl.Reducer.Sort.{InOrder}
use aiokpl.TokenBucket.{Stream, Amount, grow, exceeds, any_negative, check, debit_all, try_take}
use aiokpl.Limiter.{Pending, ShardLimiter, split_expired, cost, Admission, admit, is_empty, drain}

abbrev pub batches : List Pending → List AggregatedBatch
batches ps = map (λ p. p.batch) ps

length-check :
    (clock : ℕ → ℕ) (reads : ℕ) (amounts : List Amount) (ss : List Stream)
    → length (check clock reads amounts ss).1 ≡ length ss
unfolding check
length-check clock reads [] ss = refl
length-check clock reads (a ∷ amounts) [] = refl
length-check clock reads (a ∷ amounts) (s ∷ ss) =
    elim (Bool-cases (exceeds a (grow (clock reads) s).level)) [
      | inl e ↦ rw e refl
      | inr e ↦ rw e (omega (arith, length-check clock (reads + 1) amounts ss))
    ]

length-debit_all :
    (amounts : List Amount) (ss : List Stream) → length (debit_all amounts ss) ≡ length ss
unfolding debit_all
length-debit_all [] ss = refl
length-debit_all (a ∷ amounts) [] = refl
length-debit_all (a ∷ amounts) (s ∷ ss) = omega (arith, length-debit_all amounts ss)

-- The bucket of a limiter answers every request for a batch, and keeps its two streams.
try_take-ok :
    (clock : ℕ → ℕ) (reads : ℕ) (p : Pending) (ss : List Stream)
    → length ss ≡ 2
    → (u : Bool × List Stream × ℕ) × (try_take clock reads (cost p) ss ≡ ok u) × (length u.1 ≡ 2)
unfolding try_take any_negative
try_take-ok clock reads p ss h =
    let c = check clock reads (cost p) ss in
    let same : (2 == length ss) ≡ true = ground (arith, h) in
    elim (Bool-cases c.0) [
      | inl e ↦ (
        (true, debit_all (cost p) c.1, c.2),
        rw (same, e) refl,
        omega (arith, length-debit_all (cost p) c.1, length-check clock reads (cost p) ss),
      )
      | inr e ↦ (
        (false, c.1, c.2),
        rw (same, e) refl,
        omega (arith, length-check clock reads (cost p) ss),
      )
    ]

-- The order of the queue.
abbrev pub due : Pending → Deadline
due p = earliest p.batch.items

-- What the loop takes from the front, and what it leaves.
pub record Admits (ps : List Pending) (a : Admission) : Type 0 where
  pub kept : a.admitted ++ batches a.waiting ≡ batches ps
  pub streams : length a.bucket ≡ 2
  pub in_order : InOrder due a.waiting

admit-Admits :
    (clock : ℕ → ℕ) (reads : ℕ) (bucket : List Stream) (ps : List Pending)
    → length bucket ≡ 2
    → InOrder due ps
    → (a : Admission) × (admit clock reads bucket ps ≡ ok a) × Admits ps a
unfolding admit
admit-Admits clock reads bucket [] h o = (
  record { admitted = []; waiting = []; bucket = bucket; reads = reads },
  refl,
  record { kept = refl; streams = h; in_order = tt },
)
admit-Admits clock reads bucket (p ∷ ps) h o =
    let (u, e, k) = try_take-ok clock reads p bucket h in
    let (a, f, rest) = admit-Admits clock u.2 u.1 ps k o.1 in
    elim (Bool-cases u.0) [
      | inl taken ↦ (
        record a { admitted = p.batch ∷ a.admitted },
        rw (admit, e, taken, f) refl,
        record {
          kept = ap (λ l. p.batch ∷ l) rest.kept;
          streams = rest.streams;
          in_order = rest.in_order;
        },
      )
      | inr refused ↦ (
        record { admitted = []; waiting = p ∷ ps; bucket = u.1; reads = u.2 },
        rw (admit, e, refused) refl,
        record { kept = refl; streams = k; in_order = o },
      )
    ]

pub split_expired-kept :
    (now : ℕ) (ps : List Pending)
    → Perm ((split_expired now ps).0 ++ batches (split_expired now ps).1) (batches ps)
unfolding split_expired
split_expired-kept now [] = Perm.refl []
split_expired-kept now (p ∷ ps) = elim (Bool-cases (leb p.expires_at now)) [
  | inl e ↦ rw e (Perm.cons p.batch (split_expired-kept now ps))
  | inr e ↦ rw e (
      Perm.trans
        (perm_middle {a = p.batch} (split_expired now ps).0 (batches (split_expired now ps).1))
        (Perm.cons p.batch (split_expired-kept now ps)))
]

none_gone :
    {keep ps : List Pending} (gone : List Pending)
    → batches gone ≡ []
    → Perm (gone ++ keep) ps
    → Perm keep ps
none_gone [] e h = h
none_gone (p ∷ gone) e h = absurd (cc e)

-- What is expired at `now`, and what is not.
abbrev pub IsExpired : ℕ → Pending → Type 0
IsExpired now p = p.expires_at ≤ now

abbrev pub IsLive : ℕ → Pending → Type 0
IsLive now p = now < p.expires_at

-- The two parts of a queue `ps` at `now`.
pub record Splits (now : ℕ) (ps : List Pending) (expired : List AggregatedBatch)
    (keep : List Pending) : Type 0 where
  pub gone : List Pending
  pub all_expired : All (IsExpired now) gone
  pub all_live : All (IsLive now) keep
  pub given : batches gone ≡ expired
  pub whole : Perm (gone ++ keep) ps

split_expired-Splits :
    (now : ℕ) (ps : List Pending) → Splits now ps (split_expired now ps).0 (split_expired now ps).1
unfolding split_expired
split_expired-Splits now [] = record {
  gone = [];
  all_expired = tt;
  all_live = tt;
  given = refl;
  whole = Perm.refl [];
}
split_expired-Splits now (p ∷ ps) =
    let rest = split_expired-Splits now ps in
    elim (Bool-cases (leb p.expires_at now)) [
      | inl e ↦ rw e record {
        gone = p ∷ rest.gone;
        all_expired = (ground (arith, e), rest.all_expired);
        all_live = rest.all_live;
        given = ap (λ l. p.batch ∷ l) rest.given;
        whole = Perm.cons p rest.whole;
      }
      | inr e ↦ rw e record {
        gone = rest.gone;
        all_expired = rest.all_expired;
        all_live = (ground (arith, e), rest.all_live);
        given = rest.given;
        whole =
            Perm.trans (perm_middle {a = p} rest.gone (split_expired now ps).1)
              (Perm.cons p rest.whole);
      }
    ]

-- The parts when the queue is only filled again if something expired.
queue_used-Splits :
    (queue_of : List Pending → List Pending) (now : ℕ) (ps : List Pending)
    (expired : List AggregatedBatch) (keep : List Pending)
    → ((q : List Pending) → Perm (queue_of q) q × InOrder due (queue_of q))
    → Splits now ps expired keep
    → Splits now ps expired (if is_empty expired then ps else queue_of keep)
queue_used-Splits queue_of now ps [] keep sorts s = record {
  gone = [];
  all_expired = tt;
  all_live = All-Perm (IsLive now) (λ p. le_prop) (none_gone s.gone s.given s.whole) s.all_live;
  given = refl;
  whole = Perm.refl ps;
}
queue_used-Splits queue_of now ps (b ∷ expired) keep sorts s = record {
  gone = s.gone;
  all_expired = s.all_expired;
  all_live = All-Perm (IsLive now) (λ p. le_prop) (Perm.symm (sorts keep).0) s.all_live;
  given = s.given;
  whole = Perm.trans (Perm.append (Perm.refl s.gone) (sorts keep).0) s.whole;
}

-- What a drain at `now` gives for the queue `ps`: `queue` is what is not expired of it.
pub record Drained (now : ℕ) (ps : List Pending)
    (r : List AggregatedBatch × List AggregatedBatch × ShardLimiter × ℕ) : Type 0 where
  pub queue : List Pending
  pub parts : Splits now ps r.1 queue
  pub in_order : InOrder due queue
  pub front : r.0 ++ batches r.2.queue ≡ batches queue
  pub kept : Perm (r.1 ++ batches queue) (batches ps)
  pub streams : length r.2.bucket ≡ 2
  pub waits_in_order : InOrder due r.2.queue

module _ (queue_add : List Pending → Pending → List Pending)
    (queue_of : List Pending → List Pending) where
  queue_used :
      (expired : List AggregatedBatch) (keep ps : List Pending)
      → ((q : List Pending) → Perm (queue_of q) q × InOrder due (queue_of q))
      → InOrder due ps
      → Perm (expired ++ batches keep) (batches ps)
      → InOrder due (if is_empty expired then ps else queue_of keep)
        × Perm (expired ++ batches (if is_empty expired then ps else queue_of keep)) (batches ps)
  queue_used [] keep ps sorts ordered kept = (ordered, Perm.refl (batches ps))
  queue_used (b ∷ expired) keep ps sorts ordered kept = (
    (sorts keep).1,
    Perm.trans (Perm.append (Perm.refl (b ∷ expired)) (Perm.map (λ p. p.batch) (sorts keep).0))
        kept,
  )

  -- A drain of a limiter with its two streams and a queue in order always returns, if the queue type
  -- sorts what it is filled with. The expired batches are those whose expiry is not after the clock's
  -- first reading; the admitted ones are the front, in order of deadline, of all the others, and the
  -- rest of those waits: each batch of the queue is in one of the three, once.
  pub drain-Drained :
      ((q : List Pending) → Perm (queue_of q) q × InOrder due (queue_of q))
      → (clock : ℕ → ℕ) (reads : ℕ) (s : ShardLimiter) → length s.bucket ≡ 2
      → InOrder due s.queue
      → (r : List AggregatedBatch × List AggregatedBatch × ShardLimiter × ℕ) × (drain queue_add
            queue_of clock reads s
          ≡ ok r)
        × Drained (clock reads) s.queue r
  unfolding drain
  drain-Drained sorts clock reads s two ordered =
      let e = split_expired (clock reads) s.queue in
      let q : List Pending = if is_empty e.0 then s.queue else queue_of e.1 in
      let (used, kept) =
        queue_used e.0 e.1 s.queue sorts ordered (split_expired-kept (clock reads) s.queue) in
      let (a, f, taken) = admit-Admits clock (reads + 1) s.bucket q two used in
      (
        (a.admitted, e.0, record { bucket = a.bucket; queue = a.waiting }, a.reads),
        rw f refl,
        record {
          queue = q;
          parts =
              queue_used-Splits queue_of (clock reads) s.queue e.0 e.1 sorts
                (split_expired-Splits (clock reads) s.queue);
          in_order = used;
          front = taken.kept;
          kept = kept;
          streams = taken.streams;
          waits_in_order = taken.in_order;
        },
      )
