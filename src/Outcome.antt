-- ===== src/Outcome.antt =====
-- aiokpl/outcome.py: `Outcome`, which is set once. A waiter that still blocks has no result yet.
pub mod OneShot
mod Tests
use aiokpl.Common.{Bool, true, false, Option, none, some, if◌then◌else◌}
use aiokpl.Common.Result.{Result, ok, err}

pub record Outcome (T E : Type 0) : Type 0 where
  pub event : Bool
  pub value : Option T
  pub exc : Option E

-- `RuntimeError("Outcome already set")`
pub data AlreadySet : Type 0 where
  already_set : AlreadySet

module _ {T E : Type 0} where
  abbrev pub new_outcome : Outcome T E
  new_outcome = record { event = false; value = none; exc = none }

  unfoldable pub set_value : T → Outcome T E → Result AlreadySet (Outcome T E)
  set_value value o =
      if o.event then err already_set else ok (record o { value = some value; event = true })

  unfoldable pub set_exception : E → Outcome T E → Result AlreadySet (Outcome T E)
  set_exception exc o =
      if o.event then err already_set else ok (record o { exc = some exc; event = true })

  unfoldable pub is_set : Outcome T E → Bool
  is_set o = o.event

  -- `wait`, when it is scheduled: `none` if it blocks. The value is `None` only if none was set.
  unfoldable pub wait : Outcome T E → Option (Result E (Option T))
  wait o = if o.event then some (elim o.exc [ some exc ↦ err exc | none ↦ ok o.value ]) else none
