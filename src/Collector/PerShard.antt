-- ===== src/Collector/PerShard.antt =====
-- The bytes that `PutRecordsBatch` keeps for each shard, against the sum over its batches; and the
-- laws that a reducer relies on.
use mathlib.Core.List.{append_assoc, append-nil}
use aiokpl.Common.{
  ℕ, ◌+◌, ◌-◌, ◌≡◌, refl, sym, ap, ◌∙◌, true, Bool-cases, inl, inr, Option, some, List, [], ◌∷◌,
  ◌++◌, arith, length, ◌==◌, if◌then◌else◌,
}
use aiokpl.Common.Eq.{nat_Eq, option_Eq}
use aiokpl.Common.Dict
use aiokpl.Common.Dict.{Dict}
use aiokpl.Batch.{AggregatedBatch, earliest}
use aiokpl.Batch.Undo.{split_last-snoc}
use aiokpl.Reducer.Interface.{Lawful, add_each, built, earliest_of}
use aiokpl.Time.{earlier}
use aiokpl.Collector.{
  earliest_batch, PutRecordsBatch, new_put_batch, or_zero, per_shard_bytes, add, remove_last,
  put_ops,
}

-- The size of all batches, and of those for one shard.
abbrev pub total_size : List AggregatedBatch → ℕ
total_size [] = 0
total_size (b ∷ bs) = b.size_estimate + total_size bs

abbrev pub shard_size : Option ℕ → List AggregatedBatch → ℕ
shard_size shard [] = 0
shard_size shard (b ∷ bs) =
    let rest = shard_size shard bs in
    if option_Eq.equal b.predicted_shard shard then b.size_estimate + rest else rest

items-add_each :
    (b : PutRecordsBatch) (xs : List AggregatedBatch)
    → (add_each put_ops b xs).items ≡ b.items ++ xs
unfolding add_each add
items-add_each b [] = sym (append-nil b.items)
items-add_each b (x ∷ xs) = items-add_each (add b x) xs ∙ append_assoc b.items (x ∷ []) xs

size-add_each :
    (b : PutRecordsBatch) (xs : List AggregatedBatch)
    → (add_each put_ops b xs).size_bytes ≡ b.size_bytes + total_size xs
unfolding add_each add
size-add_each b [] = omega arith
size-add_each b (x ∷ xs) = omega (arith, size-add_each (add b x) xs)

per_shard_bytes-add :
    (b : PutRecordsBatch) (x : AggregatedBatch) (shard : Option ℕ)
    → per_shard_bytes (add b x) shard ≡ (
        if option_Eq.equal x.predicted_shard shard
        then per_shard_bytes b shard + x.size_estimate
        else per_shard_bytes b shard)
unfolding per_shard_bytes add
per_shard_bytes-add b x shard = ground (
  arith,
  Dict.get-put x.predicted_shard shard
      (or_zero (Dict.get x.predicted_shard b.shard_bytes) + x.size_estimate) b.shard_bytes,
  option_Eq.equal_iff x.predicted_shard shard,
)

per_shard_bytes-add_each :
    (b : PutRecordsBatch) (xs : List AggregatedBatch) (shard : Option ℕ)
    → per_shard_bytes (add_each put_ops b xs) shard ≡ per_shard_bytes b shard + shard_size shard xs
unfolding add_each
per_shard_bytes-add_each b [] shard = omega arith
per_shard_bytes-add_each b (x ∷ xs) shard =
    ground (arith, per_shard_bytes-add_each (add b x) xs shard, per_shard_bytes-add b x shard)

pub items-built : (xs : List AggregatedBatch) → (built put_ops xs).items ≡ xs
items-built xs = items-add_each new_put_batch xs

-- The bytes that a batch to which `xs` were added keeps for a shard are the sizes of the batches of
-- that shard, together.
pub per_shard_bytes-built :
    (xs : List AggregatedBatch) (shard : Option ℕ)
    → per_shard_bytes (built put_ops xs) shard ≡ shard_size shard xs
unfolding per_shard_bytes Dict.get
per_shard_bytes-built xs shard =
    let none_yet : per_shard_bytes new_put_batch shard ≡ 0 = refl in
    omega (arith, per_shard_bytes-add_each new_put_batch xs shard, none_yet)

-- The dict that `remove_last` leaves, and the batch that it leaves of `xs` and `x`.
abbrev dict_after : AggregatedBatch → Dict (Option ℕ) ℕ → Dict (Option ℕ) ℕ
dict_after x d =
    let new_total = or_zero (Dict.get x.predicted_shard d) - x.size_estimate in
    if new_total == 0
    then Dict.remove x.predicted_shard d
    else Dict.put x.predicted_shard new_total d

abbrev removed : List AggregatedBatch → AggregatedBatch → PutRecordsBatch
removed xs x =
    let b = add (built put_ops xs) x in
    record {
      items = xs;
      size_bytes = b.size_bytes - x.size_estimate;
      shard_bytes = dict_after x b.shard_bytes;
    }

beq_refl : (shard : Option ℕ) → option_Eq.equal shard shard ≡ true
beq_refl shard = (option_Eq.equal_iff shard shard).1 refl

get-add :
    (b : PutRecordsBatch) (x : AggregatedBatch)
    → Dict.get x.predicted_shard (add b x).shard_bytes
      ≡ some (or_zero (Dict.get x.predicted_shard b.shard_bytes) + x.size_estimate)
unfolding add
get-add b x =
    Dict.get-put x.predicted_shard x.predicted_shard
      (or_zero (Dict.get x.predicted_shard b.shard_bytes) + x.size_estimate) b.shard_bytes
    ∙ rw (beq_refl x.predicted_shard) refl

remove_last-of :
    (b : PutRecordsBatch) (xs : List AggregatedBatch) (x : AggregatedBatch) (total : ℕ)
    → b.items ≡ xs ++ x ∷ []
    → Dict.get x.predicted_shard b.shard_bytes ≡ some total
    → remove_last b
      ≡ some (
        x,
        record {
          items = xs;
          size_bytes = b.size_bytes - x.size_estimate;
          shard_bytes = dict_after x b.shard_bytes;
        },
      )
unfolding remove_last
remove_last-of b xs x total e f = rw (e, remove_last, split_last-snoc xs x, f) refl

remove_last-add_put :
    (xs : List AggregatedBatch) (x : AggregatedBatch)
    → remove_last (add (built put_ops xs) x) ≡ some (x, removed xs x)
unfolding add
remove_last-add_put xs x =
    remove_last-of (add (built put_ops xs) x) xs x
      (or_zero (Dict.get x.predicted_shard (built put_ops xs).shard_bytes) + x.size_estimate)
      (ap (λ l. l ++ x ∷ []) (items-built xs)) (get-add (built put_ops xs) x)

-- What the dict holds for a shard when `x` is taken out, and when it was put in before.
get-dict_after :
    (x : AggregatedBatch) (d : Dict (Option ℕ) ℕ) (shard : Option ℕ)
    → or_zero (Dict.get shard (dict_after x d)) ≡ (
        if option_Eq.equal x.predicted_shard shard
        then or_zero (Dict.get x.predicted_shard d) - x.size_estimate
        else or_zero (Dict.get shard d))
get-dict_after x d shard =
    let k = x.predicted_shard in
    let new_total = or_zero (Dict.get k d) - x.size_estimate in
    elim (Bool-cases (new_total == 0)) [
      | inl e ↦ rw e (ground (arith, e, Dict.get-remove k shard d))
      | inr e ↦ rw e (ground (arith, e, Dict.get-put k shard new_total d))
    ]

get-restored :
    (b : PutRecordsBatch) (x : AggregatedBatch) (shard : Option ℕ)
    → or_zero (Dict.get shard (dict_after x (add b x).shard_bytes))
      ≡ or_zero (Dict.get shard b.shard_bytes)
unfolding add
get-restored b x shard =
    let k = x.predicted_shard in
    let total = or_zero (Dict.get k b.shard_bytes) + x.size_estimate in
    get-dict_after x (add b x).shard_bytes shard
    ∙ ground
        (arith, get-add b x, Dict.get-put k shard total b.shard_bytes, option_Eq.equal_iff k shard)

size-removed :
    (xs : List AggregatedBatch) (x : AggregatedBatch)
    → (removed xs x).size_bytes ≡ (built put_ops xs).size_bytes
unfolding add
size-removed xs x = omega arith

-- `remove_last` after `add` gives back the item and leaves the items, the size and the bytes of
-- every shard as they were, for a batch to which items were added in order.
pub remove_last-add_restores :
    (xs : List AggregatedBatch) (x : AggregatedBatch) (shard : Option ℕ)
    → (b : PutRecordsBatch) × (remove_last (add (built put_ops xs) x) ≡ some (x, b))
      × (b.items ≡ (built put_ops xs).items)
      × (b.size_bytes ≡ (built put_ops xs).size_bytes)
      × (per_shard_bytes b shard ≡ per_shard_bytes (built put_ops xs) shard)
unfolding per_shard_bytes
remove_last-add_restores xs x shard = (
  removed xs x,
  remove_last-add_put xs x,
  sym (items-built xs),
  size-removed xs x,
  get-restored (built put_ops xs) x shard,
)

earliest_batch-of :
    (xs : List AggregatedBatch) → earliest_batch xs ≡ earliest_of (λ b. earliest b.items) xs
earliest_batch-of [] = refl
earliest_batch-of (x ∷ xs) = ap (earlier (earliest x.items)) (earliest_batch-of xs)

pub put_laws : Lawful put_ops
put_laws = record {
  items-built = items-built;
  count-built = λ xs. ap (λ (l : List AggregatedBatch). length l) (items-built xs);
  deadline-built = λ xs. ap earliest_batch (items-built xs) ∙ earliest_batch-of xs;
  size-empty = refl;
  removed = removed;
  remove_last-add = remove_last-add_put;
  items-removed = λ xs x. refl;
  count-removed = λ xs x. refl;
  size-removed = size-removed;
}
