-- ===== src/Batch/Size.antt =====
-- The running estimate of `AggregatedBatch` as a sum over the records and the distinct keys, and
-- its sets of keys as the keys of the records without repetitions.
use aiokpl.Common.{
  ℕ, ◌+◌, ◌≡◌, refl, ap, ◌∙◌, inl, inr, Option, none, some, List, [], ◌∷◌, ◌++◌, arith, length,
  Bool-cases, if◌then◌else◌, flat_map,
}
use aiokpl.Common.Eq.{nat_Eq, list_Eq}
use aiokpl.Aggregation.Types.{Str}
use aiokpl.Aggregation.Utf8.{utf8_encode}
use aiokpl.Reducer.Interface.{add_each, built}
use aiokpl.Batch.{
  BufferedRecord, AggregatedBatch, new_batch, has_key, charge_key, charge_option, add, batch_ops,
}

-- What the keys of a table cost, and what the records cost beside their keys.
abbrev pub keys_cost : List Str → ℕ
keys_cost [] = 0
keys_cost (k ∷ keys) = length (utf8_encode k) + 3 + keys_cost keys

abbrev pub records_cost : List BufferedRecord → ℕ
records_cost [] = 0
records_cost (x ∷ xs) = length x.user_record.content + 8 + records_cost xs

-- The keys in the order of their first use, without repetitions.
abbrev pub distinct_from : List Str → List Str → List Str
distinct_from seen [] = seen
distinct_from seen (k ∷ keys) = distinct_from (if has_key k seen then seen else seen ++ k ∷ []) keys

abbrev pub pk_of : BufferedRecord → List Str
pk_of x = x.user_record.partition_key ∷ []

abbrev pub listed : Option Str → List Str
listed none = []
listed (some k) = k ∷ []

abbrev pub ehk_of : BufferedRecord → List Str
ehk_of x = listed x.user_record.explicit_hash_key

keys_cost-snoc :
    (keys : List Str) (k : Str)
    → keys_cost (keys ++ k ∷ []) ≡ keys_cost keys + (length (utf8_encode k) + 3)
keys_cost-snoc [] k = omega arith
keys_cost-snoc (j ∷ keys) k = omega (arith, keys_cost-snoc keys k)

charge_key-cost :
    (k : Str) (keys : List Str)
    → keys_cost (charge_key k keys).1 ≡ keys_cost keys + (charge_key k keys).0
charge_key-cost k keys = ground (arith, keys_cost-snoc keys k)

charge_option-cost :
    (k : Option Str) (keys : List Str)
    → keys_cost (charge_option k keys).1 ≡ keys_cost keys + (charge_option k keys).0
charge_option-cost none keys = omega arith
charge_option-cost (some k) keys = charge_key-cost k keys

size-add_each :
    (shard : Option ℕ) (b : AggregatedBatch) (xs : List BufferedRecord)
    → (add_each (batch_ops shard) b xs).size_estimate + (keys_cost b.pk_set + keys_cost b.ehk_set)
      ≡ b.size_estimate
        + records_cost xs
        + (keys_cost (add_each (batch_ops shard) b xs).pk_set
            + keys_cost (add_each (batch_ops shard) b xs).ehk_set)
unfolding add_each add
size-add_each shard b [] = omega arith
size-add_each shard b (x ∷ xs) = omega (
  arith,
  size-add_each shard (add b x) xs,
  charge_key-cost x.user_record.partition_key b.pk_set,
  charge_option-cost x.user_record.explicit_hash_key b.ehk_set,
)

charge_key-keys :
    (k : Str) (keys rest : List Str)
    → distinct_from (charge_key k keys).1 rest ≡ distinct_from keys (k ∷ rest)
charge_key-keys k keys rest = elim (Bool-cases (has_key k keys)) [
  | inl e ↦ rw e refl
  | inr e ↦ rw e refl
]

charge_option-keys :
    (k : Option Str) (keys rest : List Str)
    → distinct_from (charge_option k keys).1 rest ≡ distinct_from keys (listed k ++ rest)
charge_option-keys none keys rest = refl
charge_option-keys (some k) keys rest = charge_key-keys k keys rest

pks-add_each :
    (shard : Option ℕ) (b : AggregatedBatch) (xs : List BufferedRecord)
    → (add_each (batch_ops shard) b xs).pk_set ≡ distinct_from b.pk_set (flat_map pk_of xs)
unfolding add_each add
pks-add_each shard b [] = refl
pks-add_each shard b (x ∷ xs) =
    pks-add_each shard (add b x) xs
    ∙ charge_key-keys x.user_record.partition_key b.pk_set (flat_map pk_of xs)

ehks-add_each :
    (shard : Option ℕ) (b : AggregatedBatch) (xs : List BufferedRecord)
    → (add_each (batch_ops shard) b xs).ehk_set ≡ distinct_from b.ehk_set (flat_map ehk_of xs)
unfolding add_each add
ehks-add_each shard b [] = refl
ehks-add_each shard b (x ∷ xs) =
    ehks-add_each shard (add b x) xs
    ∙ charge_option-keys x.user_record.explicit_hash_key b.ehk_set (flat_map ehk_of xs)

-- The estimate of a batch to which the records `xs` were added: eight bytes and its data for each
-- record, and three bytes and its text for each distinct partition key and each distinct explicit
-- hash key.
pub size-built :
    (shard : Option ℕ) (xs : List BufferedRecord)
    → (built (batch_ops shard) xs).size_estimate
      ≡ records_cost xs
        + (keys_cost (distinct_from [] (flat_map pk_of xs))
            + keys_cost (distinct_from [] (flat_map ehk_of xs)))
size-built shard xs =
    let total = size-add_each shard (new_batch shard) xs in
    omega (
      arith,
      total,
      ap keys_cost (pks-add_each shard (new_batch shard) xs),
      ap keys_cost (ehks-add_each shard (new_batch shard) xs),
    )
