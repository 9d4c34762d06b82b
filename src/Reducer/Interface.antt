-- ===== src/Reducer/Interface.antt =====
-- The `Batch` and `Batchable` protocols of aiokpl/reducer.py: what a reducer needs of its batches.
use aiokpl.Common.{ℕ, ◌≡◌, refl, Option, some, List, [], ◌∷◌, ◌++◌, length}
use aiokpl.Time.{Deadline, never, earlier}

pub record BatchOps (I B : Type 0) : Type 0 where
  pub empty : B
  pub add : B → I → B
  -- `none` where the source raises `IndexError`.
  pub remove_last : B → Option (I × B)
  pub items : B → List I
  pub count : B → ℕ
  pub size : B → ℕ
  pub deadline : B → Deadline
  pub item_deadline : I → Deadline

-- The earliest deadline of a list of items, `never` for none.
abbrev pub earliest_of : {I : Type 0} → (I → Deadline) → List I → Deadline
earliest_of key [] = never
earliest_of key (x ∷ xs) = earlier (key x) (earliest_of key xs)

module _ {I B : Type 0} (ops : BatchOps I B) where
  unfoldable pub add_each : B → List I → B
  add_each b [] = b
  add_each b (x ∷ xs) = add_each (ops.add b x) xs

  -- A batch to which the items were added in order.
  abbrev pub built : List I → B
  built xs = add_each ops.empty xs

  pub add_each-snoc :
      (b : B) (xs : List I) (x : I) → add_each b (xs ++ x ∷ []) ≡ ops.add (add_each b xs) x
  unfolding add_each
  add_each-snoc b [] x = refl
  add_each-snoc b (y ∷ xs) x = add_each-snoc (ops.add b y) xs x

  -- What a reducer relies on: a built batch holds its items and has their earliest deadline, and
  -- `remove_last` undoes an `add`.
  pub record Lawful : Type 0 where
    pub items-built : (xs : List I) → ops.items (built xs) ≡ xs
    pub count-built : (xs : List I) → ops.count (built xs) ≡ length xs
    pub deadline-built : (xs : List I) → ops.deadline (built xs) ≡ earliest_of ops.item_deadline xs
    pub size-empty : ops.size ops.empty ≡ 0
    pub removed : List I → I → B
    pub remove_last-add :
        (xs : List I) (x : I) → ops.remove_last (ops.add (built xs) x) ≡ some (x, removed xs x)
    pub items-removed : (xs : List I) (x : I) → ops.items (removed xs x) ≡ xs
    pub count-removed : (xs : List I) (x : I) → ops.count (removed xs x) ≡ length xs
    pub size-removed : (xs : List I) (x : I) → ops.size (removed xs x) ≡ ops.size (built xs)
