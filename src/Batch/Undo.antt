-- ===== src/Batch/Undo.antt =====
-- `AggregatedBatch.remove_last` undoes `add`, and the batch is what a reducer relies on.
use mathlib.Core.List.{append_assoc, append-nil}
use aiokpl.Common.{ℕ, ◌≡◌, refl, sym, ap, ◌∙◌, Option, some, List, [], ◌∷◌, ◌++◌, length}
use aiokpl.Reducer.Interface.{Lawful, add_each, built, earliest_of}
use aiokpl.Time.{at, earlier}
use aiokpl.Batch.{
  earliest, BufferedRecord, AggregatedBatch, new_batch, add, split_last, add_kept, remove_last,
  batch_ops,
}

pub split_last-snoc {ℓ} :
    {A : Type ℓ} (xs : List A) (x : A) → split_last (xs ++ x ∷ []) ≡ some (xs, x)
unfolding split_last
split_last-snoc [] x = refl
split_last-snoc (y ∷ xs) x = rw (split_last-snoc xs x) refl

pub add_kept-add_each :
    (shard : Option ℕ) (b : AggregatedBatch) (xs : List BufferedRecord)
    → add_kept b xs ≡ add_each (batch_ops shard) b xs
unfolding add_kept add_each
add_kept-add_each shard b [] = refl
add_kept-add_each shard b (x ∷ xs) = add_kept-add_each shard (add b x) xs

items-add_each :
    (shard : Option ℕ) (b : AggregatedBatch) (xs : List BufferedRecord)
    → (add_each (batch_ops shard) b xs).items ≡ b.items ++ xs
unfolding add_each add
items-add_each shard b [] = sym (append-nil b.items)
items-add_each shard b (x ∷ xs) =
    items-add_each shard (add b x) xs ∙ append_assoc b.items (x ∷ []) xs

pub shard-add_each :
    (shard : Option ℕ) (b : AggregatedBatch) (xs : List BufferedRecord)
    → (add_each (batch_ops shard) b xs).predicted_shard ≡ b.predicted_shard
unfolding add_each add
shard-add_each shard b [] = refl
shard-add_each shard b (x ∷ xs) = shard-add_each shard (add b x) xs

pub items-built :
    (shard : Option ℕ) (xs : List BufferedRecord) → (built (batch_ops shard) xs).items ≡ xs
items-built shard xs = items-add_each shard (new_batch shard) xs

pub shard-built :
    (shard : Option ℕ) (xs : List BufferedRecord)
    → (built (batch_ops shard) xs).predicted_shard ≡ shard
shard-built shard xs = shard-add_each shard (new_batch shard) xs

remove_last-snoc :
    (shard : Option ℕ) (b : AggregatedBatch) (xs : List BufferedRecord) (x : BufferedRecord)
    → b.items ≡ xs ++ x ∷ []
    → b.predicted_shard ≡ shard
    → remove_last b ≡ some (x, built (batch_ops shard) xs)
unfolding remove_last
remove_last-snoc shard b xs x e f =
    rw (e, remove_last, split_last-snoc xs x, f)
      (ap (λ r. some (x, r)) (add_kept-add_each shard (new_batch shard) xs))

-- `remove_last` after `add` gives back the item and the batch as it was, with its sets of keys and
-- its estimate, for a batch to which items were added in order.
pub remove_last-add :
    (shard : Option ℕ) (xs : List BufferedRecord) (x : BufferedRecord)
    → remove_last (add (built (batch_ops shard) xs) x) ≡ some (x, built (batch_ops shard) xs)
unfolding add
remove_last-add shard xs x =
    remove_last-snoc shard (add (built (batch_ops shard) xs) x) xs x
      (ap (λ l. l ++ x ∷ []) (items-built shard xs)) (shard-built shard xs)

pub earliest-of : (xs : List BufferedRecord) → earliest xs ≡ earliest_of (λ x. at x.deadline) xs
earliest-of [] = refl
earliest-of (x ∷ xs) = ap (earlier (at x.deadline)) (earliest-of xs)

abbrev pub batch_laws : (shard : Option ℕ) → Lawful (batch_ops shard)
batch_laws shard = record {
  items-built = items-built shard;
  count-built = λ xs. ap (λ (l : List BufferedRecord). length l) (items-built shard xs);
  deadline-built = λ xs. ap earliest (items-built shard xs) ∙ earliest-of xs;
  size-empty = refl;
  removed = λ xs x. built (batch_ops shard) xs;
  remove_last-add = remove_last-add shard;
  items-removed = λ xs x. items-built shard xs;
  count-removed = λ xs x. ap (λ (l : List BufferedRecord). length l) (items-built shard xs);
  size-removed = λ xs x. refl;
}
