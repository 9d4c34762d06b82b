-- ===== src/Outcome/OneShot.antt =====
-- The first call that sets an outcome decides what every waiter gets.
use aiokpl.Common.{◌≡◌, refl, ap, ◌∙◌, true, Option, none, some, List, [], ◌∷◌, All}
use aiokpl.Common.Result.{Result, ok, err}
use aiokpl.Outcome.{Outcome, AlreadySet, already_set, new_outcome, set_value, set_exception, wait}

pub data Call (T E : Type 0) : Type 0 where
  with_value : T → Call T E
  with_exception : E → Call T E

module _ {T E : Type 0} where
  abbrev pub result : Call T E → Outcome T E → Result AlreadySet (Outcome T E)
  result (with_value value) o = set_value value o
  result (with_exception exc) o = set_exception exc o

  -- A call that raises leaves the outcome as it is.
  abbrev pub or_same : Outcome T E → Result AlreadySet (Outcome T E) → Outcome T E
  or_same o (ok o') = o'
  or_same o (err e) = o

  abbrev pub after : Call T E → Outcome T E → Outcome T E
  after c o = or_same o (result c o)

  unfoldable pub after_all : List (Call T E) → Outcome T E → Outcome T E
  after_all [] o = o
  after_all (c ∷ cs) o = after_all cs (after c o)

  -- What a waiter gets of a call.
  abbrev pub given : Call T E → Result E (Option T)
  given (with_value value) = ok (some value)
  given (with_exception exc) = err exc

  raises_when_set : (c : Call T E) (o : Outcome T E) → o.event ≡ true → result c o ≡ err already_set
  unfolding set_value set_exception
  raises_when_set (with_value value) o e = rw e refl
  raises_when_set (with_exception exc) o e = rw e refl

  after_all-set :
      (cs : List (Call T E)) (o : Outcome T E)
      → o.event ≡ true
      → (after_all cs o ≡ o) × All (λ c. result c o ≡ err already_set) cs
  unfolding after_all
  after_all-set [] o e = (refl, tt)
  after_all-set (c ∷ cs) o e =
      let raises = raises_when_set c o e in
      let (same, rest) = after_all-set cs o e in
      (ap (λ r. after_all cs (or_same o r)) raises ∙ same, (raises, rest))

  -- After any calls on a new outcome, of which `c` is the first, every wait returns what `c` gave, and
  -- every call after the first raises.
  pub wait-after_all :
      (c : Call T E) (cs : List (Call T E))
      → (wait (after_all (c ∷ cs) new_outcome) ≡ some (given c))
        × All (λ d. result d (after c new_outcome) ≡ err already_set) cs
  unfolding after_all wait set_value set_exception
  wait-after_all (with_value value) cs =
      let (same, raises) =
        after_all-set cs record { event = true; value = some value; exc = none } refl in
      (ap wait same, raises)
  wait-after_all (with_exception exc) cs =
      let (same, raises) =
        after_all-set cs record { event = true; value = none; exc = some exc } refl in
      (ap wait same, raises)
