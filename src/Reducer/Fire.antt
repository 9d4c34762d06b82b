-- ===== src/Reducer/Fire.antt =====
-- The branches of `_fire`.
use aiokpl.Common.{ℕ, ◌≡◌, refl, true, false, none, some, ◌==◌}
use aiokpl.Reducer.Interface.{BatchOps}
use aiokpl.Reducer.{ReducerState, ReducerConfig, is_current, pack_and_split, fire}

module _ {I B : Type 0} (ops : BatchOps I B) (cfg : ReducerConfig I B) where
  open ops use {count}

  pub fire-closed :
      (now scope : ℕ) (s : ReducerState B) → s.closed ≡ true → fire ops cfg now scope s ≡ (none, s)
  unfolding fire
  fire-closed now scope s e = rw e refl

  pub fire-stale :
      (now scope : ℕ) (s : ReducerState B)
      → s.closed ≡ false
      → is_current scope s.timer_scope ≡ false
      → fire ops cfg now scope s ≡ (none, s)
  unfolding fire
  fire-stale now scope s e f = rw (e, f) refl

  pub fire-idle :
      (now scope : ℕ) (s : ReducerState B)
      → s.closed ≡ false
      → is_current scope s.timer_scope ≡ true
      → (count s.active == 0) ≡ true
      → fire ops cfg now scope s ≡ (none, record s { timer_scope = none })
  unfolding fire
  fire-idle now scope s e f g = rw (e, f, g) refl

  pub fire-due :
      (now scope : ℕ) (s : ReducerState B)
      → s.closed ≡ false
      → is_current scope s.timer_scope ≡ true
      → (count s.active == 0) ≡ false
      → fire ops cfg now scope s ≡ (
        some (pack_and_split ops cfg now (record s { timer_scope = none })).0,
        (pack_and_split ops cfg now (record s { timer_scope = none })).1,
      )
  unfolding fire
  fire-due now scope s e f g = rw (e, f, g) refl
