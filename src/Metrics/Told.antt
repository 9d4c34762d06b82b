-- ===== src/Metrics/Told.antt =====
-- What puts and flushes tell the sink.
use aiokpl.Common.{
  ℕ, ◌+◌, ◌≡◌, refl, ap, sym, ◌∙◌, Bool, true, false, List, [], ◌∷◌, ◌++◌, All, All-append,
}
use mathlib.Core.Path.{subst}
use mathlib.Core.List.{append-nil, append_assoc}
use aiokpl.Metrics.Types.{
  MetricsLevel, none_level, summary, detailed, MetricKey, MetricEvent, MetricSnapshot,
}
use aiokpl.Metrics.Export.{ManagerCall, puts, takes, flushes, Session, step, run}
use aiokpl.Metrics.{
  MetricsManager, SinkCall, records, exports, key_of, tell, put_key, put_at, put, snapshot,
  snapshots, export, flush_at, flush,
}

-- A call that hands data over: an event, or an export that is not empty.
pub data IsData : SinkCall → Type 0 where
  event : (e : MetricEvent) → IsData (records e)
  batch : (s : MetricSnapshot) (snaps : List MetricSnapshot) → IsData (exports (s ∷ snaps))

-- Between entry and exit.
abbrev pub AreData : MetricsLevel → List SinkCall → Type 0
AreData none_level calls = calls ≡ []
AreData level calls = All IsData calls

AreData-nil : (level : MetricsLevel) → AreData level []
AreData-nil none_level = refl
AreData-nil summary = tt
AreData-nil detailed = tt

AreData-append :
    (level : MetricsLevel) (xs ys : List SinkCall)
    → AreData level xs
    → AreData level ys
    → AreData level (xs ++ ys)
AreData-append none_level xs ys h k = rw (h, k) refl
AreData-append summary xs ys h k = All-append IsData xs ys h k
AreData-append detailed xs ys h k = All-append IsData xs ys h k

-- What no call between entry and exit changes.
pub record Keeps (m m' : MetricsManager) : Type 0 where
  pub level : m'.level ≡ m.level
  pub entered : m'.entered ≡ m.entered
  pub upload_cancelled : m'.upload_cancelled ≡ m.upload_cancelled
  pub closed : m'.closed ≡ m.closed

Keeps-refl : (m : MetricsManager) → Keeps m m
Keeps-refl m = record { level = refl; entered = refl; upload_cancelled = refl; closed = refl }

Keeps-trans : (a b c : MetricsManager) → Keeps a b → Keeps b c → Keeps a c
Keeps-trans a b c h k = record {
  level = k.level ∙ h.level;
  entered = k.entered ∙ h.entered;
  upload_cancelled = k.upload_cancelled ∙ h.upload_cancelled;
  closed = k.closed ∙ h.closed;
}

module _ (clock : ℕ → ℕ) where
  tell-All :
      (reads : ℕ) (eventful : Bool) (value : ℕ) (k : MetricKey)
      → All IsData (tell clock reads eventful value k).0
  unfolding tell
  tell-All reads true value k = (event _, tt)
  tell-All reads false value k = tt

  put_at-told :
      (level : MetricsLevel) (reads value : ℕ) (k : MetricKey) (m : MetricsManager)
      → AreData level (put_at clock level reads value k m).0
        × Keeps m (put_at clock level reads value k m).1
  unfolding put_at put_key
  put_at-told none_level reads value k m = (refl, Keeps-refl m)
  put_at-told summary reads value k m = (
    tell-All (reads + 1) m.eventful value (key_of summary k),
    record { level = refl; entered = refl; upload_cancelled = refl; closed = refl },
  )
  put_at-told detailed reads value k m = (
    tell-All (reads + 1) m.eventful value k,
    record { level = refl; entered = refl; upload_cancelled = refl; closed = refl },
  )

  export-All : (snaps : List MetricSnapshot) → All IsData (export clock snaps)
  export-All [] = tt
  export-All (s ∷ snaps) = (batch s snaps, tt)

  pub flush_at-told :
      (level : MetricsLevel) (reads : ℕ) (m : MetricsManager)
      → AreData level (flush_at clock level reads m).0 × Keeps m (flush_at clock level reads m).1
  unfolding flush_at snapshots
  flush_at-told none_level reads m = (refl, Keeps-refl m)
  flush_at-told summary reads m = (
    export-All (snapshots clock reads m).0,
    record { level = refl; entered = refl; upload_cancelled = refl; closed = refl },
  )
  flush_at-told detailed reads m = (
    export-All (snapshots clock reads m).0,
    record { level = refl; entered = refl; upload_cancelled = refl; closed = refl },
  )

module _ (clock : ℕ → ℕ) where
  -- From one session to a later one, at a level.
  pub record Tells (level : MetricsLevel) (s s' : Session) : Type 0 where
    pub calls : List SinkCall
    pub told : s'.told ≡ s.told ++ calls
    pub data_only : AreData level calls
    pub keeps : Keeps s.manager s'.manager

  step-Tells : (c : ManagerCall) (s : Session) → Tells s.manager.level s (step clock c s)
  unfolding step put snapshot flush
  step-Tells (puts value k) s =
      let own = put_at-told clock s.manager.level s.reads value k s.manager in
      record { calls = _; told = refl; data_only = own.0; keeps = own.1 }
  step-Tells takes s = record {
    calls = [];
    told = sym (append-nil s.told);
    data_only = AreData-nil s.manager.level;
    keeps = record { level = refl; entered = refl; upload_cancelled = refl; closed = refl };
  }
  step-Tells flushes s =
      let own = flush_at-told clock s.manager.level s.reads s.manager in
      record { calls = _; told = refl; data_only = own.0; keeps = own.1 }

  pub run-Tells :
      (level : MetricsLevel) (cs : List ManagerCall) (s : Session)
      → s.manager.level ≡ level
      → Tells level s (run clock cs s)
  unfolding run
  run-Tells level [] s e = record {
    calls = [];
    told = sym (append-nil s.told);
    data_only = AreData-nil level;
    keeps = Keeps-refl s.manager;
  }
  run-Tells level (c ∷ cs) s e =
      let s1 = step clock c s in
      let first = step-Tells c s in
      let rest = run-Tells level cs s1 (first.keeps.level ∙ e) in
      record {
        calls = first.calls ++ rest.calls;
        told =
            rest.told
            ∙ ap (λ l. l ++ rest.calls) first.told
            ∙ append_assoc s.told first.calls rest.calls;
        data_only =
            AreData-append level first.calls rest.calls
              (subst (λ l. AreData l first.calls) e first.data_only) rest.data_only;
        keeps = Keeps-trans s.manager s1.manager _ first.keeps rest.keeps;
      }
