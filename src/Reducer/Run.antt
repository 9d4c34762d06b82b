-- ===== src/Reducer/Run.antt =====
-- A reducer at work: any sequence of `add`, `flush` and fired timers, from the constructor on.
-- The batches that come out are those that `add` and `flush` return and those that `_fire` hands
-- to `on_deadline`.
use mathlib.Core.List.{append_assoc, append-nil, Perm}
use mathlib.Core.List.Perm
use aiokpl.Common.{
  ℕ, ◌<◌, ◌≡◌, refl, sym, ap, ◌∙◌, ◌⊎◌, inl, inr, false, ◌||◌, Option, none, some, List, [], ◌∷◌,
  ◌++◌, arith, leb, ◌==◌, Bool-cases, length, length-append, All, All-append, flat_map,
  flat_map-append,
}
use aiokpl.Reducer.Interface.{BatchOps, Lawful, add_each, built, add_each-snoc}
use aiokpl.Reducer.Sort.{sorted-perm}
use aiokpl.Reducer.Pack.{IsOver, IsWithin}
use aiokpl.Reducer.Split.{IsBuilt, pack_and_split-Split, active-cancel_timer, active-reschedule}
use aiokpl.Reducer.Fire.{fire-closed, fire-stale, fire-idle, fire-due}
use aiokpl.Reducer.{
  ReducerState, ReducerConfig, is_current, new_reducer, pack_and_split, cancel_timer, reschedule,
  predicate_hit, add, flush, fire,
}

-- What happens to a reducer, each at the clock's time.
pub data Event (I : Type 0) : Type 0 where
  added : ℕ → I → Event I
  flushed : ℕ → Event I
  fired : ℕ → ℕ → Event I

-- The batch that may come out, as a list.
abbrev pub out : {B : Type 0} → Option B → List B
out none = []
out (some b) = b ∷ []

-- The item that an event brings.
abbrev pub brought : {I : Type 0} → Event I → List I
brought (added now item) = item ∷ []
brought (flushed now) = []
brought (fired now scope) = []

module _ {I B : Type 0} (ops : BatchOps I B) (cfg : ReducerConfig I B) where
  abbrev pub step : Event I → ReducerState B → Option B × ReducerState B
  step (added now item) s = add ops cfg now item s
  step (flushed now) s = flush ops cfg now s
  step (fired now scope) s = fire ops cfg now scope s

  -- The batches that come out of a sequence of events, in order, and the last state.
  unfoldable pub run : List (Event I) → ReducerState B → List B × ReducerState B
  run [] s = ([], s)
  run (e ∷ es) s = let (b, s') = step e s in let (bs, s'') = run es s' in (out b ++ bs, s'')

  -- A batch that may be sent: not empty, and within the limits or one item that is over by itself.
  abbrev pub IsSendable : B → Type 0
  IsSendable b =
      (0 < length (ops.items b))
      × (IsWithin ops cfg b ⊎ ((length (ops.items b) ≡ 1) × IsOver ops cfg b))

module _ {I B : Type 0} (ops : BatchOps I B) (cfg : ReducerConfig I B) (laws : Lawful ops) where
  open ops use {empty, items, count, size, item_deadline}

  -- What an operation makes of the items `xs`: its result has the same items, in batches that may
  -- be sent and in an active batch.
  pub record Conserves (xs : List I) (bs : List B) (s : ReducerState B) : Type 0 where
    pub kept : Perm (flat_map items bs ++ items s.active) xs
    pub sendable : All (IsSendable ops cfg) bs
    pub holds : IsBuilt ops cfg laws s

  split-Conserves :
      (now : ℕ) (s : ReducerState B)
      → 0 < length (items s.active)
      → Conserves
          (items s.active)
          (out (some (pack_and_split ops cfg now s).0))
          (pack_and_split ops cfg now s).1
  split-Conserves now s h =
      let (split, holds) = pack_and_split-Split ops cfg laws now s in
      record {
        kept =
            rw (append-nil (items (pack_and_split ops cfg now s).0), split.kept)
              (sorted-perm item_deadline (items s.active));
        sendable = ((split.moves h, split.bounded), tt);
        holds = holds;
      }

  same-Conserves :
      (s s' : ReducerState B)
      → IsBuilt ops cfg laws s
      → s'.active ≡ s.active
      → Conserves (items s.active) [] s'
  same-Conserves s s' v e = record {
    kept = rw e (Perm.refl (items s.active));
    sendable = tt;
    holds = rw e v;
  }

  count-items :
      (s : ReducerState B) → IsBuilt ops cfg laws s → count s.active ≡ length (items s.active)
  count-items s v = ap count v ∙ laws.count-built (items s.active)

  items-add :
      (s : ReducerState B) (x : I)
      → IsBuilt ops cfg laws s
      → items (ops.add s.active x) ≡ items s.active ++ x ∷ []
  items-add s x v =
      ap items (ap (λ b. ops.add b x) v ∙ sym (add_each-snoc ops empty (items s.active) x))
      ∙ laws.items-built (items s.active ++ x ∷ [])

  added-IsBuilt :
      (s : ReducerState B) (x : I)
      → IsBuilt ops cfg laws s
      → IsBuilt ops cfg laws (record s { active = ops.add s.active x })
  added-IsBuilt s x v =
      (ap (λ b. ops.add b x) v ∙ sym (add_each-snoc ops empty (items s.active) x))
      ∙ sym (ap (built ops) (items-add s x v))

  pub add-Conserves :
      (now : ℕ) (x : I) (s : ReducerState B)
      → IsBuilt ops cfg laws s
      → Conserves (items s.active ++ x ∷ []) (out (add ops cfg now x s).0) (add ops cfg now x s).1
  unfolding add
  add-Conserves now x s v =
      let s' : ReducerState B = record s { active = ops.add s.active x } in
      let b = s'.active in
      let hit =
        predicate_hit ops cfg x b
        || (leb cfg.count_limit (count b) || leb cfg.size_limit (size b)) in
      let holds = added-IsBuilt s x v in
      rw (← items-add s x v) (elim (Bool-cases hit) [
        | inl e ↦ rw e (
            split-Conserves now s'
              (rw (items-add s x v) (omega (arith, length-append (items s.active) (x ∷ [])))))
        | inr e ↦ rw e (
            same-Conserves s' (reschedule ops cfg now s') holds
              (active-reschedule ops cfg laws now s'))
      ])

  nonempty :
      (s : ReducerState B)
      → IsBuilt ops cfg laws s
      → (count s.active == 0) ≡ false
      → 0 < length (items s.active)
  nonempty s v e = ground (arith, count-items s v)

  pub flush-Conserves :
      (now : ℕ) (s : ReducerState B)
      → IsBuilt ops cfg laws s
      → Conserves (items s.active) (out (flush ops cfg now s).0) (flush ops cfg now s).1
  unfolding flush
  flush-Conserves now s v = elim (Bool-cases (count s.active == 0)) [
    | inl e ↦
        rw e (same-Conserves s (cancel_timer ops cfg s) v (active-cancel_timer ops cfg laws s))
    | inr e ↦ rw e (split-Conserves now s (nonempty s v e))
  ]

  pub fire-Conserves :
      (now scope : ℕ) (s : ReducerState B)
      → IsBuilt ops cfg laws s
      → Conserves (items s.active) (out (fire ops cfg now scope s).0) (fire ops cfg now scope s).1
  fire-Conserves now scope s v = elim (Bool-cases s.closed) [
    | inl e ↦ rw (fire-closed ops cfg now scope s e) (same-Conserves s s v refl)
    | inr e ↦ elim (Bool-cases (is_current scope s.timer_scope)) [
      | inl f ↦ elim (Bool-cases (count s.active == 0)) [
        | inl g ↦
            rw (fire-idle ops cfg now scope s e f g)
              (same-Conserves s (record s { timer_scope = none }) v refl)
        | inr g ↦
            rw (fire-due ops cfg now scope s e f g)
              (split-Conserves now (record s { timer_scope = none }) (nonempty s v g))
      ]
      | inr f ↦ rw (fire-stale ops cfg now scope s e f) (same-Conserves s s v refl)
    ]
  ]

  step-Conserves :
      (e : Event I) (s : ReducerState B)
      → IsBuilt ops cfg laws s
      → Conserves (items s.active ++ brought e) (out (step ops cfg e s).0) (step ops cfg e s).1
  step-Conserves (added now x) s v = add-Conserves now x s v
  step-Conserves (flushed now) s v = rw (append-nil (items s.active)) (flush-Conserves now s v)
  step-Conserves (fired now scope) s v =
      rw (append-nil (items s.active)) (fire-Conserves now scope s v)

  pub run_from-Conserves :
      (es : List (Event I)) (s : ReducerState B)
      → IsBuilt ops cfg laws s
      → Conserves (items s.active ++ flat_map brought es) (run ops cfg es s).0 (run ops cfg es s).1
  unfolding run
  run_from-Conserves [] s v = rw (append-nil (items s.active)) (same-Conserves s s v refl)
  run_from-Conserves (e ∷ es) s v =
      let first = step-Conserves e s v in
      let s' = (step ops cfg e s).1 in
      let b = out (step ops cfg e s).0 in
      let rest = run_from-Conserves es s' first.holds in
      let bs = (run ops cfg es s').0 in
      let s'' = (run ops cfg es s').1 in
      record {
        kept =
            rw
              (
                flat_map-append items b bs,
                append_assoc (flat_map items b) (flat_map items bs) (items s''.active),
                ← append_assoc (items s.active) (brought e) (flat_map brought es),
              )
              (Perm.trans
                (rw (append_assoc (flat_map items b) (items s'.active) (flat_map brought es))
                  (Perm.append (Perm.refl (flat_map items b)) rest.kept))
                (Perm.append first.kept (Perm.refl (flat_map brought es))));
        sendable = All-append (IsSendable ops cfg) b bs first.sendable rest.sendable;
        holds = rest.holds;
      }

  pub new-IsBuilt : IsBuilt ops cfg laws (new_reducer ops cfg)
  unfolding add_each new_reducer
  new-IsBuilt = sym (ap (built ops) (laws.items-built []))

  pub new-items : items (new_reducer ops cfg).active ≡ []
  unfolding add_each new_reducer
  new-items = laws.items-built []

  -- After any sequence of adds, flushes and fired timers, of a new reducer that is not closed yet, the
  -- batches that came out and the active batch hold the items that were added, each as often as it
  -- was added; every batch that came out has an item, and is within both limits or is one item that
  -- is over a limit by itself.
  pub run-IsSendable :
      (es : List (Event I))
      → Perm
          (flat_map items (run ops cfg es (new_reducer ops cfg)).0
            ++ items (run ops cfg es (new_reducer ops cfg)).1.active)
          (flat_map brought es)
        × All (IsSendable ops cfg) (run ops cfg es (new_reducer ops cfg)).0
  run-IsSendable es =
      let r = run_from-Conserves es (new_reducer ops cfg) new-IsBuilt in
      (rw new-items at r.kept, r.sendable)
