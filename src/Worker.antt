-- ===== src/Worker.antt =====
-- app/worker/scheduler.py and app/worker/contracts.py: schedules, checkpoints and query windows.
-- Durations are microseconds; a negative one is refused by the same checks as zero.
pub mod Windows
pub mod Execution
mod Tests
use Prim.Native.String.{◌++◌ as text_append}
use hz.Prelude.{
  ℕ, ◌+◌, ◌-◌, min, max, String, Bool, true, false, ◌&&◌, ◌||◌, not, Option, none, some, List, [],
  ◌∷◌, leb, ltb, any, if◌then◌else◌, str_eq, Result, ok, err, raise_if, ◌>>=◌, ◌>>◌,
}
use hz.Time.{Datetime, naive, aware, as_utc, minus, plus, hours}

pub data RunMode : Type 0 where
  incremental reconciliation : RunMode

pub data RunStatus : Type 0 where
  succeeded failed skipped_not_due skipped_locked : RunStatus

-- What the planner and the constructors raise.
pub data PlanError : Type 0 where
  not_positive overlap_too_long naive_now instant_overflow empty_window : PlanError
  no_schedule duplicate_job : PlanError

-- app/sources/types.py: a half-open window of instants.
pub record ObservationWindow : Type 0 where
  pub start : ℕ
  pub end : ℕ

unfoldable pub build_window : ℕ → ℕ → Result PlanError ObservationWindow
build_window start end = do
  raise_if (leb end start) empty_window
  ok (record { start = start; end = end })

-- A schedule; of its adapter, the source that it reads.
pub record PollSchedule : Type 0 where
  pub job_id : String
  pub source_id : String
  pub cadence : ℕ
  pub overlap : ℕ
  pub initial_lookback : ℕ
  pub max_incremental_lookback : ℕ
  pub reconcile_every : Option ℕ
  pub reconcile_lookback : ℕ

enabled_but_zero : Option ℕ → Bool
enabled_but_zero none = false
enabled_but_zero (some d) = leb d 0

-- `PollSchedule(…)` with its `__post_init__`
pub build_schedule : PollSchedule → Result PlanError PollSchedule
unfolding enabled_but_zero
build_schedule s = do
  raise_if
      (any (λ d. leb d 0)
        (s.cadence ∷ s.overlap ∷ s.initial_lookback ∷ s.max_incremental_lookback
          ∷ s.reconcile_lookback ∷ []))
      not_positive
  raise_if (enabled_but_zero s.reconcile_every) not_positive
  raise_if (leb s.max_incremental_lookback s.overlap) overlap_too_long
  ok s

unfoldable pub lock_name : PollSchedule → String
lock_name s = text_append "50hz:ingest:" s.source_id

unfoldable pub reconciliation_job_id : PollSchedule → String
reconciliation_job_id s = text_append s.job_id ".reconcile"

-- The fields that the worker reads; the constructor has made its times aware.
pub record IngestionCheckpoint : Type 0 where
  pub job_id : String
  pub last_attempted_at : ℕ
  pub last_succeeded_at : Option ℕ
  pub window_end : Option ℕ

-- `WindowPlanner.is_due`
due_after : Option IngestionCheckpoint → ℕ → ℕ → Result PlanError Bool
due_after none now interval = ok true
due_after (some c) now interval = do
  next ← plus instant_overflow c.last_attempted_at interval
  ok (leb next now)

unfoldable pub is_due : Option IngestionCheckpoint → Datetime → ℕ → Result PlanError Bool
unfolding due_after
is_due checkpoint now interval = do t ← as_utc naive_now now; due_after checkpoint t interval

-- `checkpoint.window_end`, of a checkpoint that may be missing
abbrev pub known_end : Option IngestionCheckpoint → Option ℕ
known_end none = none
known_end (some c) = c.window_end

-- the first `start` of `WindowPlanner.incremental`
wanted_start : PollSchedule → Option ℕ → ℕ → Result PlanError ℕ
wanted_start s none now = minus instant_overflow now s.initial_lookback
wanted_start s (some end) now = minus instant_overflow end s.overlap

-- the protection against a checkpoint in the future
guarded_start : PollSchedule → ℕ → ℕ → Result PlanError ℕ
guarded_start s start now =
    if leb now start
    then minus instant_overflow now (min s.initial_lookback s.overlap)
    else ok start

-- `WindowPlanner.incremental`
unfoldable pub incremental_window :
    PollSchedule → Option IngestionCheckpoint → Datetime → Result PlanError ObservationWindow
unfolding wanted_start guarded_start
incremental_window s checkpoint now = do
  t ← as_utc naive_now now
  floor ← minus instant_overflow t s.max_incremental_lookback
  wanted ← wanted_start s (known_end checkpoint) t
  start ← guarded_start s (max wanted floor) t
  build_window start t

-- `WindowPlanner.reconciliation`
unfoldable pub reconciliation_window : PollSchedule → Datetime → Result PlanError ObservationWindow
reconciliation_window s now = do
  t ← as_utc naive_now now
  start ← minus instant_overflow t s.reconcile_lookback
  build_window start t
