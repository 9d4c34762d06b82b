-- ===== src/Reducer/Timer.antt =====
-- The deadline timer of a reducer, over any sequence of `add`, `flush` and fired timers.
use aiokpl.Common.{
  ℕ, ◌≡◌, refl, ap, sym, ◌∙◌, ◌⊎◌, inl, inr, true, false, ◌||◌, none, some, List, [], ◌∷◌, ◌++◌,
  arith, ltb, leb, ◌==◌, Bool-cases, length,
}
use mathlib.Core.Path.{subst}
use mathlib.Core.List.{append-nil, append_assoc}
use aiokpl.Time.{Deadline, delay_until}
use aiokpl.Reducer.Interface.{BatchOps, Lawful, add_each, built, earliest_of}
use aiokpl.Reducer.Sort.{sorted}
use aiokpl.Reducer.Run.{Event, added, flushed, fired, step, run, run_from-Conserves, new-IsBuilt}
use aiokpl.Reducer.Fire.{fire-closed, fire-stale, fire-idle, fire-due}
use aiokpl.Reducer.{
  ReducerState, ReducerConfig, is_current, new_reducer, pack, pack_and_split, cancel_timer,
  reschedule, predicate_hit, add, flush, fire,
}

module _ {I B : Type 0} (ops : BatchOps I B) (cfg : ReducerConfig I B) where
  open ops use {empty, items, count, size, deadline, item_deadline}

  -- The timer that was started last is the current one, and sleeps from `now` until the deadline of
  -- the active batch.
  pub record Armed (now : ℕ) (s : ReducerState B) : Type 0 where
    pub before : List (ℕ × Deadline)
    pub current : s.timer_scope ≡ some (length before)
    pub latest : s.started ≡ before ++ (length before, delay_until (deadline s.active) now) ∷ []

  abbrev IsArmed : ℕ → ReducerState B → Type 0
  IsArmed now s = (count s.active ≡ 0) ⊎ Armed now s

  not_positive : (n : ℕ) → ltb 0 n ≡ false → n ≡ 0
  not_positive n e = ground arith

  zero-count : (s : ReducerState B) → (count s.active == 0) ≡ true → count s.active ≡ 0
  zero-count s e = ground arith

  reschedule-IsArmed : (now : ℕ) (s : ReducerState B) → IsArmed now (reschedule ops cfg now s)
  reschedule-IsArmed now s =
      let s' = cancel_timer ops cfg s in
      elim (Bool-cases (count s'.active == 0)) [
        | inl e ↦ rw e (inl (zero-count s' e))
        | inr e ↦ rw e (inr record { before = s'.started; current = refl; latest = refl })
      ]

  pack_and_split-IsArmed :
      (now : ℕ) (s : ReducerState B) → IsArmed now (pack_and_split ops cfg now s).1
  unfolding pack_and_split
  pack_and_split-IsArmed now s =
      let s' = cancel_timer ops cfg s in
      let s'' : ReducerState B = record s' {
        active = built ops (pack ops cfg empty (sorted item_deadline (items s'.active))).1;
      } in
      elim (Bool-cases (ltb 0 (count s''.active))) [
        | inl e ↦ rw e (reschedule-IsArmed now s'')
        | inr e ↦ rw e (inl (not_positive (count s''.active) e))
      ]

  add-IsArmed : (now : ℕ) (x : I) (s : ReducerState B) → IsArmed now (add ops cfg now x s).1
  unfolding add
  add-IsArmed now x s =
      let s' : ReducerState B = record s { active = ops.add s.active x } in
      let b = s'.active in
      elim (Bool-cases (
        predicate_hit ops cfg x b
        || (leb cfg.count_limit (count b) || leb cfg.size_limit (size b)))) [
          | inl e ↦ rw e (pack_and_split-IsArmed now s')
          | inr e ↦ rw e (reschedule-IsArmed now s')
        ]

  cancel-count : (s : ReducerState B) → count (cancel_timer ops cfg s).active ≡ count s.active
  cancel-count s = ground arith

  flush-IsArmed : (now : ℕ) (s : ReducerState B) → IsArmed now (flush ops cfg now s).1
  unfolding flush
  flush-IsArmed now s = elim (Bool-cases (count s.active == 0)) [
    | inl e ↦ rw e (inl (cancel-count s ∙ zero-count s e))
    | inr e ↦ rw e (pack_and_split-IsArmed now s)
  ]

  -- A fired timer starts a new one, or is stale and changes nothing.
  fire-IsArmed :
      (now scope : ℕ) (s : ReducerState B)
      → IsArmed now (fire ops cfg now scope s).1 ⊎ ((fire ops cfg now scope s).1 ≡ s)
  fire-IsArmed now scope s = elim (Bool-cases s.closed) [
    | inl e ↦ rw (fire-closed ops cfg now scope s e) (inr refl)
    | inr e ↦ elim (Bool-cases (is_current scope s.timer_scope)) [
      | inl f ↦ elim (Bool-cases (count s.active == 0)) [
        | inl g ↦ rw (fire-idle ops cfg now scope s e f g) (inl (inl (zero-count s g)))
        | inr g ↦
            rw (fire-due ops cfg now scope s e f g)
              (inl (pack_and_split-IsArmed now (record s { timer_scope = none })))
      ]
      | inr f ↦ rw (fire-stale ops cfg now scope s e f) (inr refl)
    ]
  ]

  -- The clock's time at an event.
  abbrev pub time_of : Event I → ℕ
  time_of (added now x) = now
  time_of (flushed now) = now
  time_of (fired now scope) = now

  step-IsArmed :
      (e : Event I) (s : ReducerState B)
      → IsArmed (time_of e) (step ops cfg e s).1 ⊎ ((step ops cfg e s).1 ≡ s)
  step-IsArmed (added now x) s = inl (add-IsArmed now x s)
  step-IsArmed (flushed now) s = inl (flush-IsArmed now s)
  step-IsArmed (fired now scope) s = fire-IsArmed now scope s

  -- The state after a sequence of events from a new reducer.
  abbrev pub after : List (Event I) → ReducerState B
  after es = (run ops cfg es (new_reducer ops cfg)).1

  run-append :
      (es fs : List (Event I)) (s : ReducerState B)
      → (run ops cfg (es ++ fs) s).1 ≡ (run ops cfg fs (run ops cfg es s).1).1
  unfolding run
  run-append [] fs s = refl
  run-append (e ∷ es) fs s = run-append es fs (step ops cfg e s).1

  -- One of the events started the current timer, the last one that was started; the events behind it
  -- changed nothing. It sleeps from the time of that event.
  pub record IsLastSet (es : List (Event I)) : Type 0 where
    pub before : List (Event I)
    pub event : Event I
    pub later : List (Event I)
    pub whole : es ≡ before ++ event ∷ later
    pub unchanged : after (before ++ event ∷ []) ≡ after es
    pub armed : Armed (time_of event) (after es)

  abbrev IsTimed : List (Event I) → Type 0
  IsTimed es = (count (after es).active ≡ 0) ⊎ IsLastSet es

  after-snoc :
      (es : List (Event I)) (e : Event I) → after (es ++ e ∷ []) ≡ (step ops cfg e (after es)).1
  unfolding run
  after-snoc es e = run-append es (e ∷ []) (new_reducer ops cfg)

  IsTimed-snoc : (es : List (Event I)) (e : Event I) → IsTimed es → IsTimed (es ++ e ∷ [])
  IsTimed-snoc es e h = elim (step-IsArmed e (after es)) [
    | inl (inl c) ↦ inl (ap (λ s. count s.active) (after-snoc es e) ∙ c)
    | inl (inr armed) ↦ inr record {
      before = es;
      event = e;
      later = [];
      whole = refl;
      unchanged = refl;
      armed = subst (Armed (time_of e)) (sym (after-snoc es e)) armed;
    }
    | inr same ↦
        let stays = after-snoc es e ∙ same in
        elim h [
          | inl c ↦ inl (ap (λ s. count s.active) stays ∙ c)
          | inr w ↦ inr record {
            before = w.before;
            event = w.event;
            later = w.later ++ e ∷ [];
            whole =
                ap (λ l. l ++ e ∷ []) w.whole ∙ append_assoc w.before (w.event ∷ w.later) (e ∷ []);
            unchanged = w.unchanged ∙ sym stays;
            armed = subst (Armed (time_of w.event)) (sym stays) w.armed;
          }
        ]
  ]

  IsTimed-append : (fs es : List (Event I)) → IsTimed fs → IsTimed (fs ++ es)
  IsTimed-append fs [] h = rw (append-nil fs) h
  IsTimed-append fs (e ∷ es) h =
      subst IsTimed (append_assoc fs (e ∷ []) es)
        (IsTimed-append (fs ++ e ∷ []) es (IsTimed-snoc fs e h))

  new-IsTimed : Lawful ops → IsTimed []
  unfolding add_each new_reducer run
  new-IsTimed laws = inl (laws.count-built [])

  -- After any sequence of adds, flushes and fired timers, of a new reducer that is not closed yet: it
  -- holds no item, or its current timer is the one that was started last, by the last event that
  -- changed it, and sleeps from the time of that event until the deadline of the active batch, which
  -- is the earliest of its items.
  pub run-IsArmed :
      (laws : Lawful ops) (es : List (Event I))
      → ((count (after es).active ≡ 0) ⊎ IsLastSet es)
        × (deadline (after es).active ≡ earliest_of item_deadline (items (after es).active))
  run-IsArmed laws es = (
    IsTimed-append [] es (new-IsTimed laws),
    ap deadline
          (run_from-Conserves ops cfg laws es (new_reducer ops cfg)
            (new-IsBuilt ops cfg laws)).holds
        ∙ laws.deadline-built (items (after es).active),
  )
