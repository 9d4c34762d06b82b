-- ===== src/Metrics/Sink.antt =====
-- What the sink of a manager is told, from `__aenter__` to `__aexit__`.
use aiokpl.Common.{
  ℕ, ◌≡◌, refl, ap, sym, ◌∙◌, Bool, true, false, some, List, [], ◌∷◌, ◌++◌, All, All-append,
}
use mathlib.Core.Path.{subst}
use mathlib.Core.List.{append-nil, append_assoc}
use aiokpl.Common.Result.{ok}
use aiokpl.Metrics.Types.{MetricsLevel, none_level, summary, detailed}
use aiokpl.Metrics.Export.{ManagerCall, Session, run}
use aiokpl.Metrics.{
  MetricsManager, new_manager, SinkCall, enters, exits, flush, leave_entered, leave_at, leave,
  enter_at, enter,
}
use aiokpl.Metrics.Told.{IsData, AreData, Keeps, flush_at-told, run-Tells}

module _ (clock : ℕ → ℕ) where
  flush-told :
      (reads : ℕ) (m : MetricsManager)
      → AreData m.level (flush clock reads m).0 × Keeps m (flush clock reads m).1
  unfolding flush
  flush-told reads m = flush_at-told clock m.level reads m

  -- `__aexit__` of a manager that was entered.
  record Leaves (reads : ℕ) (m : MetricsManager) : Type 0 where
    calls : List SinkCall
    manager : MetricsManager
    count : ℕ
    returns : leave_entered clock reads m ≡ ok (calls ++ exits ∷ [], manager, count)
    closed : manager.closed ≡ true
    data_only : AreData m.level calls

  leave_entered-Leaves :
      (reads : ℕ) (m : MetricsManager)
      → m.entered ≡ true
      → m.upload_cancelled ≡ some false
      → Leaves reads m
  unfolding leave_entered
  leave_entered-Leaves reads m e u =
      let m1 = record m { closed = true } in
      let own = flush-told reads m1 in
      record {
        calls = (flush clock reads m1).0;
        manager = record (flush clock reads m1).1 { upload_cancelled = some true; entered = false };
        count = (flush clock reads m1).2;
        returns = rw (leave_entered, own.1.upload_cancelled ∙ u, own.1.entered ∙ e) refl;
        closed = own.1.closed;
        data_only = own.0;
      }

-- What the sink of a manager was told in all: nothing at the level `NONE`; else it was entered,
-- was given data, and was left.
pub record Whole (told : List SinkCall) : Type 0 where
  calls : List SinkCall
  all : told ≡ enters ∷ (calls ++ exits ∷ [])
  data_only : All IsData calls

abbrev pub IsVisit : MetricsLevel → List SinkCall → Type 0
IsVisit none_level told = told ≡ []
IsVisit level told = Whole told

-- The manager after `__aenter__`.
unfoldable pub entered_session : MetricsLevel → Bool → ℕ → Session
unfolding enter
entered_session level eventful reads =
    let (calls, m) = enter (new_manager level eventful) in
    record { manager = m; reads = reads; log = []; told = calls }

-- `__aexit__` returns, and what the sink was told is a visit.
pub record Exits (clock : ℕ → ℕ) (level : MetricsLevel) (s : Session) : Type 0 where
  calls : List SinkCall
  manager : MetricsManager
  count : ℕ
  returns : leave clock s.reads s.manager ≡ ok (calls, manager, count)
  visit : IsVisit level (s.told ++ calls)

module _ (clock : ℕ → ℕ) (eventful : Bool) (reads : ℕ) (cs : List ManagerCall) where
  visit_entered :
      (s : Session) (level : MetricsLevel) (left : Leaves clock s.reads s.manager)
      (calls : List SinkCall)
      → s.told ≡ enters ∷ calls
      → All IsData calls
      → All IsData left.calls
      → Whole (s.told ++ (left.calls ++ exits ∷ []))
  visit_entered s level left calls told h k = record {
    calls = calls ++ left.calls;
    all =
        ap (λ l. l ++ (left.calls ++ exits ∷ [])) told
        ∙ ap (λ l. enters ∷ l) (sym (append_assoc calls left.calls (exits ∷ [])));
    data_only = All-append IsData calls left.calls h k;
  }

  -- A manager that is entered, is given any puts, snapshots and flushes, and is left again does not
  -- fail an assertion. At the level `NONE` its sink is never called; at the other levels the sink is
  -- entered first, is then given only events and exports with a snapshot at least, and is left last.
  pub leave-run :
      (level : MetricsLevel)
      → Exits clock level (run clock cs (entered_session level eventful reads))
  unfolding enter enter_at leave leave_at entered_session
  leave-run none_level =
      let s0 = entered_session none_level eventful reads in
      let ran = run-Tells clock none_level cs s0 refl in
      let s = run clock cs s0 in
      record {
        calls = [];
        manager = s.manager;
        count = s.reads;
        returns = rw ran.keeps.level refl;
        visit = append-nil s.told ∙ ran.told ∙ ran.data_only;
      }
  leave-run summary =
      let s0 = entered_session summary eventful reads in
      let ran = run-Tells clock summary cs s0 refl in
      let s = run clock cs s0 in
      let left =
        leave_entered-Leaves clock s.reads s.manager ran.keeps.entered ran.keeps.upload_cancelled in
      record {
        calls = left.calls ++ exits ∷ [];
        manager = left.manager;
        count = left.count;
        returns = rw ran.keeps.level left.returns;
        visit =
            visit_entered s summary left ran.calls ran.told ran.data_only
              (subst (λ l. AreData l left.calls) ran.keeps.level left.data_only);
      }
  leave-run detailed =
      let s0 = entered_session detailed eventful reads in
      let ran = run-Tells clock detailed cs s0 refl in
      let s = run clock cs s0 in
      let left =
        leave_entered-Leaves clock s.reads s.manager ran.keeps.entered ran.keeps.upload_cancelled in
      record {
        calls = left.calls ++ exits ∷ [];
        manager = left.manager;
        count = left.count;
        returns = rw ran.keeps.level left.returns;
        visit =
            visit_entered s detailed left ran.calls ran.told ran.data_only
              (subst (λ l. AreData l left.calls) ran.keeps.level left.data_only);
      }
