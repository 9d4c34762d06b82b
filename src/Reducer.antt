-- ===== src/Reducer.antt =====
-- aiokpl/reducer.py: the generic deadline-driven batcher. A batch is known by its operations, as
-- in the `Batch` protocol. The state holds what the task group was asked to run: each started
-- timer with its scope and its delay, and the scopes that were cancelled.
pub mod Sort
pub mod Interface
pub mod Pack
pub mod Split
pub mod Fire
pub mod Run
pub mod Timer
mod Tests
use aiokpl.Common.{
  ℕ, zero, suc, ◌+◌, Bool, true, false, not, ◌&&◌, ◌||◌, Option, none, some, List, [], ◌∷◌, ◌++◌,
  leb, ltb, ◌==◌, if◌then◌else◌, length,
}
use aiokpl.Time.{Deadline, delay_until}
use aiokpl.Reducer.Sort.{sorted}
use aiokpl.Reducer.Interface.{BatchOps, built}

-- The state of a `Reducer` over batches `B`. A scope is the number of its timer.
pub record ReducerState (B : Type 0) : Type 0 where
  pub active : B
  pub timer_scope : Option ℕ
  pub closed : Bool
  pub started : List (ℕ × Deadline)
  pub cancelled : List ℕ

-- The limits and the predicate that the constructor takes.
pub record ReducerConfig (I B : Type 0) : Type 0 where
  pub count_limit : ℕ
  pub size_limit : ℕ
  pub flush_predicate : Option (I → B → Bool)

-- `self._timer_scope is scope`
abbrev pub is_current : ℕ → Option ℕ → Bool
is_current scope none = false
is_current scope (some current) = scope == current

module _ {I B : Type 0} (ops : BatchOps I B) (cfg : ReducerConfig I B) where
  open ops use {empty, remove_last, items, count, size, deadline, item_deadline}
  open cfg use {count_limit, size_limit, flush_predicate}

  abbrev pub new_reducer : ReducerState B
  new_reducer = record {
    active = empty;
    timer_scope = none;
    closed = false;
    started = [];
    cancelled = [];
  }

  -- `_cancel_timer_locked`
  abbrev pub cancel_timer : ReducerState B → ReducerState B
  cancel_timer s = elim s.timer_scope [
    | none ↦ s
    | some scope ↦ record s { timer_scope = none; cancelled = s.cancelled ++ scope ∷ [] }
  ]

  -- `_reschedule_locked`, at the clock's time `now`.
  abbrev pub reschedule : ℕ → ReducerState B → ReducerState B
  reschedule now s =
      let s' = cancel_timer s in
      if count s'.active == 0 then s' else record s' {
        timer_scope = some (length s'.started);
        started = s'.started ++ (length s'.started, delay_until (deadline s'.active) now) ∷ [];
      }

  -- The packing loop: `packed` is the closed batch so far. The remainder comes back beside it.
  unfoldable pub pack : B → List I → B × List I
  pack packed [] = (packed, [])
  pack packed (c ∷ candidates) =
      let packed' = ops.add packed c in
      let rest = pack packed' candidates in
      if ltb count_limit (count packed') || ltb size_limit (size packed')
      then (if count packed' == 1
          then (packed', candidates)
          else (elim (remove_last packed') [ some (item, b) ↦ b | none ↦ packed' ], c ∷ candidates))
      else rest

  -- `_pack_and_split`: the closed batch, and the state after it.
  unfoldable pub pack_and_split : ℕ → ReducerState B → B × ReducerState B
  unfolding pack
  pack_and_split now s =
      let s' = cancel_timer s in
      let (packed, remaining) = pack empty (sorted item_deadline (items s'.active)) in
      let s'' = record s' { active = built ops remaining } in
      (packed, if ltb 0 (count s''.active) then reschedule now s'' else s'')

  -- `flush_predicate is not None and flush_predicate(item, active)`
  abbrev pub predicate_hit : I → B → Bool
  predicate_hit item b = elim flush_predicate [ none ↦ false | some p ↦ p item b ]

  -- `add`
  unfoldable pub add : ℕ → I → ReducerState B → Option B × ReducerState B
  unfolding pack_and_split
  add now item s =
      let active = ops.add s.active item in
      let s' = record s { active = active } in
      if predicate_hit item active
        || (leb count_limit (count active) || leb size_limit (size active))
      then (let (packed, s'') = pack_and_split now s' in (some packed, s''))
      else (none, reschedule now s')

  -- `flush`
  unfoldable pub flush : ℕ → ReducerState B → Option B × ReducerState B
  unfolding pack_and_split
  flush now s =
      if count s.active == 0
      then (none, cancel_timer s)
      else (let (packed, s') = pack_and_split now s in (some packed, s'))

  -- `aclose`
  unfoldable pub aclose : ReducerState B → ReducerState B
  aclose s = record (cancel_timer (record s { closed = true })) { active = empty }

  -- `_fire(scope)`: the batch that goes to `on_deadline`, if one does.
  unfoldable pub fire : ℕ → ℕ → ReducerState B → Option B × ReducerState B
  unfolding pack_and_split
  fire now scope s =
      if s.closed
      then (none, s)
      else if is_current scope s.timer_scope
      then (let s' = record s { timer_scope = none } in
          if count s'.active == 0
          then (none, s')
          else (let (packed, s'') = pack_and_split now s' in (some packed, s'')))
      else (none, s)
