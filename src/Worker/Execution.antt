-- ===== src/Worker/Execution.antt =====
-- app/worker/scheduler.py: `IngestionWorker`. The repository, the locks, the adapters, the clock and
-- the actions after a success are not part of it: `Services` has them as steps on a state `S`.
pub mod Outcomes
use hz.Prelude.{
  ℕ, String, Bool, true, false, not, Option, none, some, List, [], ◌∷◌, ◌++◌, any, length, str_eq,
  map, ◌||◌, Result, ok, err, raise_if, if◌then◌else◌, take,
}
use hz.Time.{Datetime, naive, aware, as_utc}
use hz.Worker.{
  RunMode, incremental, reconciliation, RunStatus, succeeded, failed, skipped_not_due,
  skipped_locked, PlanError, no_schedule, duplicate_job, naive_now, PollSchedule, ObservationWindow,
  IngestionCheckpoint, lock_name, reconciliation_job_id, is_due, incremental_window,
  reconciliation_window,
}

-- An exception: `type(exc).__name__` and the characters of `str(exc)`.
pub record Failure : Type 0 where
  pub error_type : String
  pub error_message : List ℕ

pub record PersistOutcome : Type 0 where
  pub inserted : ℕ
  pub updated : ℕ
  pub unchanged : ℕ

pub record PostIngestionContext : Type 0 where
  pub job_id : String
  pub completed_at : ℕ
  pub persistence : PersistOutcome

pub record RunOutcome : Type 0 where
  pub job_id : String
  pub mode : RunMode
  pub status : RunStatus
  pub window : Option ObservationWindow
  pub record_count : ℕ
  pub persistence : Option PersistOutcome
  pub error : Option Failure

-- A step that returns or raises, and leaves a state in both cases.
abbrev pub Exec : Type 0 → Type 0 → Type 0
Exec S A = S → Result Failure A × S

abbrev pub pure : {S A : Type 0} → A → Exec S A
pure a s = (ok a, s)

abbrev pub raise : {S A : Type 0} → Failure → Exec S A
raise e s = (err e, s)

-- the statements after a step
abbrev pub continue :
    {S A B : Type 0} → Result Failure A × S → (A → Exec S B) → Result Failure B × S
continue (err e, s) f = (err e, s)
continue (ok a, s) f = f a s

infixl 5 ◌>>=◌
abbrev pub ◌>>=◌ : {S A B : Type 0} → Exec S A → (A → Exec S B) → Exec S B
◌>>=◌ m f s = continue (m s) f

-- `try: m except Exception as exc: handler(exc)`
abbrev pub recover :
    {S A : Type 0} → Result Failure A × S → (Failure → Exec S A) → Result Failure A × S
recover (err e, s) f = f e s
recover (ok a, s) f = (ok a, s)

-- What an adapter's result holds is its own affair; the worker counts its records.
pub record Services (S R : Type 0) : Type 0 where
  pub get_checkpoint : String → Exec S (Option IngestionCheckpoint)
  pub acquire : String → Exec S Bool
  pub release : String → S → S
  pub fetch : String → ObservationWindow → Exec S R
  pub record_count : R → ℕ
  pub persist_success : String → R → ℕ → ℕ → Exec S PersistOutcome
  pub record_failure : String → ObservationWindow → ℕ → ℕ → Failure → Exec S (Unit {0})
  pub clock : S → Datetime × S
  pub actions : List (PostIngestionContext → Exec S (Unit {0}))
  -- the exceptions that the worker's own checks raise
  pub plan_failure : PlanError → Failure

-- `str(exc)[:2000]`
abbrev pub message_limit : ℕ
message_limit = 2000

module _ {S R : Type 0} (services : Services S R) where
  lift : {A : Type 0} → Result PlanError A → Exec S A
  lift (err e) = raise (services.plan_failure e)
  lift (ok a) = pure a

  -- `_utc(self.clock(), "clock")`
  read_clock : Exec S ℕ
  unfolding lift
  read_clock s = let (t, s') = services.clock s in lift (as_utc naive_now t) s'

  -- The body of the `try`: the result, when it was complete, and what was stored.
  ingest : PollSchedule → String → ObservationWindow → ℕ → Exec S (R × ℕ × PersistOutcome)
  unfolding read_clock
  ingest schedule job_id window attempted_at = do
    result ← services.fetch schedule.source_id window
    completed_at ← read_clock
    persistence ← services.persist_success job_id result attempted_at completed_at
    pure (result, completed_at, persistence)

  -- The body of the `except`.
  report_failure : String → RunMode → ObservationWindow → ℕ → Failure → Exec S RunOutcome
  unfolding read_clock
  report_failure job_id mode window attempted_at exc = do
    failed_at ← read_clock
    _ ←
        services.record_failure job_id window attempted_at failed_at
          (record exc { error_message = take message_limit exc.error_message })
    pure (record {
      job_id = job_id;
      mode = mode;
      status = failed;
      window = some window;
      record_count = 0;
      persistence = none;
      error = some exc;
    })

  -- The loop over the actions: one that raises is logged, and the next one runs.
  run_actions : PostIngestionContext → List (PostIngestionContext → Exec S (Unit {0})) → S → S
  run_actions context [] s = s
  run_actions context (action ∷ rest) s = run_actions context rest (action context s).1

  success : String → RunMode → ObservationWindow → R × ℕ × PersistOutcome → RunOutcome
  success job_id mode window (result, completed_at, persistence) = record {
    job_id = job_id;
    mode = mode;
    status = succeeded;
    window = some window;
    record_count = services.record_count result;
    persistence = some persistence;
    error = none;
  }

  -- What follows the `try` under the lock: an exception's report ends `_execute`; after a success the
  -- lock is released and the actions run.
  finish :
      PollSchedule
      → String
      → RunMode
      → ObservationWindow
      → ℕ
      → Result Failure (R × ℕ × PersistOutcome) × S
      → Result Failure RunOutcome × S
  unfolding report_failure run_actions success
  finish schedule job_id mode window attempted_at (err exc, s) =
      let (r, s') = report_failure job_id mode window attempted_at exc s in
      (r, services.release (lock_name schedule) s')
  finish schedule job_id mode window attempted_at (ok (result, completed_at, persistence), s) = (
    ok (success job_id mode window (result, completed_at, persistence)),
    run_actions (record { job_id = job_id; completed_at = completed_at; persistence = persistence })
        services.actions (services.release (lock_name schedule) s),
  )

  locked : String → RunMode → ObservationWindow → RunOutcome
  locked job_id mode window = record {
    job_id = job_id;
    mode = mode;
    status = skipped_locked;
    window = some window;
    record_count = 0;
    persistence = none;
    error = none;
  }

  -- what runs with the answer of `acquire`
  with_lock : PollSchedule → String → RunMode → ObservationWindow → ℕ → Bool → Exec S RunOutcome
  unfolding ingest finish locked
  with_lock schedule job_id mode window attempted_at false s =
      (ok (locked job_id mode window), services.release (lock_name schedule) s)
  with_lock schedule job_id mode window attempted_at true s =
      finish schedule job_id mode window attempted_at (ingest schedule job_id window attempted_at s)

  -- `_execute`
  unfoldable pub execute :
      PollSchedule → String → RunMode → ObservationWindow → ℕ → Exec S RunOutcome
  unfolding with_lock
  execute schedule job_id mode window attempted_at = do
    acquired ← services.acquire (lock_name schedule)
    with_lock schedule job_id mode window attempted_at acquired

  not_due : String → RunMode → RunOutcome
  not_due job_id mode = record {
    job_id = job_id;
    mode = mode;
    status = skipped_not_due;
    window = none;
    record_count = 0;
    persistence = none;
    error = none;
  }

  -- One half of a round: the job runs if it is due, in the window that the planner gives.
  run_job :
      PollSchedule
      → String
      → RunMode
      → ℕ
      → (Option IngestionCheckpoint → Result PlanError ObservationWindow)
      → ℕ
      → Exec S RunOutcome
  unfolding not_due lift
  run_job schedule job_id mode interval window_for tick_time = do
    checkpoint ← services.get_checkpoint job_id
    due ← lift (is_due checkpoint (aware tick_time) interval)
    if due
        then (do
          window ← lift (window_for checkpoint)
          execute schedule job_id mode window tick_time)
        else pure (not_due job_id mode)

  -- the part of a round behind `if schedule.reconcile_every is None: continue`
  reconcile : PollSchedule → Option ℕ → ℕ → Exec S (List RunOutcome)
  reconcile schedule none tick_time = pure []
  reconcile schedule (some interval) tick_time = do
    outcome ←
        run_job schedule (reconciliation_job_id schedule) reconciliation interval
          (λ checkpoint. reconciliation_window schedule (aware tick_time)) tick_time
    pure (outcome ∷ [])

  unfoldable pub run_schedule : PollSchedule → ℕ → Exec S (List RunOutcome)
  unfolding run_job reconcile
  run_schedule schedule tick_time = do
    outcome ←
        run_job schedule schedule.job_id incremental schedule.cadence
          (λ checkpoint. incremental_window schedule checkpoint (aware tick_time)) tick_time
    rest ← reconcile schedule schedule.reconcile_every tick_time
    pure (outcome ∷ rest)

  -- The loop over the schedules; an exception leaves it and the tick.
  unfoldable pub run_schedules : List PollSchedule → ℕ → Exec S (List RunOutcome)
  run_schedules [] tick_time = pure []
  run_schedules (schedule ∷ rest) tick_time = do
    outcomes ← run_schedule schedule tick_time
    later ← run_schedules rest tick_time
    pure (outcomes ++ later)

  tick_time_of : Option Datetime → Exec S ℕ
  unfolding lift read_clock
  tick_time_of none = read_clock
  tick_time_of (some t) = lift (as_utc naive_now t)

  -- `run_once`
  unfoldable pub run_once : List PollSchedule → Option Datetime → Exec S (List RunOutcome)
  unfolding run_schedules tick_time_of
  run_once schedules now = do tick_time ← tick_time_of now; run_schedules schedules tick_time

  -- `run_forever`, by what `stop_event.is_set()` answers before each tick: an exception of a tick is
  -- logged, and the next tick comes after the wait.
  unfoldable pub run_forever : List PollSchedule → List Bool → S → S
  run_forever schedules [] s = s
  run_forever schedules (true ∷ stops) s = s
  run_forever schedules (false ∷ stops) s =
      run_forever schedules stops (run_once schedules none s).1

has_duplicates : List String → Bool
has_duplicates [] = false
has_duplicates (j ∷ js) = any (str_eq j) js || has_duplicates js

-- `IngestionWorker(…)`: the checks of its constructor
unfoldable pub build_worker : List PollSchedule → Result PlanError (List PollSchedule)
unfolding has_duplicates
build_worker [] = err no_schedule
build_worker (s ∷ rest) =
    if has_duplicates (map (λ t. t.job_id) (s ∷ rest)) then err duplicate_job else ok (s ∷ rest)
