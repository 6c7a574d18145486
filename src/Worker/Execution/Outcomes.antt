-- ===== src/Worker/Execution/Outcomes.antt =====
-- Which outcomes a tick reports, whatever the services do.
use mathlib.Core.List.{map-append}
use mathlib.Core.Path.{subst}
use hz.Prelude.{
  ℕ, String, ◌≡◌, refl, ap, Option, none, some, List, [], ◌∷◌, ◌++◌, map, ok, err, Result, true,
  false, Bool, if◌then◌else◌,
}
use hz.Time.{Datetime, aware}
use hz.Worker.{
  RunMode, incremental, reconciliation, PollSchedule, IngestionCheckpoint, ObservationWindow,
  PlanError, reconciliation_job_id, lock_name, is_due,
}
use hz.Worker.Execution.{
  Services, Exec, RunOutcome, Failure, PersistOutcome, execute, with_lock, finish, ingest,
  report_failure, success, run_job, reconcile, run_schedule, run_schedules, run_once, read_clock,
  continue, lift, tick_time_of, locked, not_due,
}

-- a step whose result, if there is one, has a property
abbrev Gives : {S A : Type 0} → (A → Type 0) → Result Failure A × S → Type 0
Gives P (err e, s) = Unit {0}
Gives P (ok a, s) = P a

continue-Gives :
    {S A B : Type 0} (P : B → Type 0) (r : Result Failure A × S) (f : A → Exec S B)
    → ((a : A) (s : S) → Gives P (f a s))
    → Gives P (continue r f)
continue-Gives P (err e, s) f g = tt
continue-Gives P (ok a, s) f g = g a s

continue_known-Gives :
    {S A B : Type 0} (Q : A → Type 0) (P : B → Type 0) (r : Result Failure A × S) (f : A → Exec S B)
    → Gives Q r
    → ((a : A) → Q a → (s : S) → Gives P (f a s))
    → Gives P (continue r f)
continue_known-Gives Q P (err e, s) f q g = tt
continue_known-Gives Q P (ok a, s) f q g = g a q s

branch-Gives :
    {S A : Type 0} (P : A → Type 0) (test : Bool) (chosen other : Exec S A) (s : S)
    → Gives P (chosen s)
    → Gives P (other s)
    → Gives P ((if test then chosen else other) s)
branch-Gives P true chosen other s y n = y
branch-Gives P false chosen other s y n = n

state-Gives :
    {S A : Type 0} (P : A → Type 0) (r : Result Failure A × S) (s : S)
    → Gives P r
    → Gives P (r.0, s)
state-Gives P (err e, s') s p = tt
state-Gives P (ok a, s') s p = p

-- the job and the mode of an outcome
abbrev pub run_of : RunOutcome → String × RunMode
run_of o = (o.job_id, o.mode)

-- the runs of a round
abbrev reconciliation_of : PollSchedule → Option ℕ → List (String × RunMode)
reconciliation_of schedule none = []
reconciliation_of schedule (some interval) = (reconciliation_job_id schedule, reconciliation) ∷ []

abbrev pub runs_of : List PollSchedule → List (String × RunMode)
runs_of [] = []
runs_of (schedule ∷ rest) =
    ((schedule.job_id, incremental) ∷ reconciliation_of schedule schedule.reconcile_every)
    ++ runs_of rest

module _ {S R : Type 0} (services : Services S R) where
  abbrev IsRunOf : String → RunMode → RunOutcome → Type 0
  IsRunOf job_id mode o = run_of o ≡ (job_id, mode)

  report_failure-run :
      (job_id : String) (mode : RunMode) (w : ObservationWindow) (t : ℕ) (e : Failure) (s : S)
      → Gives (IsRunOf job_id mode) (report_failure services job_id mode w t e s)
  unfolding report_failure
  report_failure-run job_id mode w t e s =
      continue-Gives _ (read_clock services s) _ (λ failed_at s1.
        continue-Gives _ (services.record_failure job_id w t failed_at _ s1) _ (λ done s2. refl))

  finish-run :
      (schedule : PollSchedule) (job_id : String) (mode : RunMode) (w : ObservationWindow) (t : ℕ)
      (r : Result Failure (R × ℕ × PersistOutcome) × S)
      → Gives (IsRunOf job_id mode) (finish services schedule job_id mode w t r)
  unfolding finish success
  finish-run schedule job_id mode w t (err e, s) =
      state-Gives _ (report_failure services job_id mode w t e s) _
        (report_failure-run job_id mode w t e s)
  finish-run schedule job_id mode w t (ok (result, completed_at, persistence), s) = refl

  with_lock-run :
      (schedule : PollSchedule) (job_id : String) (mode : RunMode) (w : ObservationWindow) (t : ℕ)
      (acquired : Bool) (s : S)
      → Gives (IsRunOf job_id mode) (with_lock services schedule job_id mode w t acquired s)
  unfolding with_lock locked
  with_lock-run schedule job_id mode w t false s = refl
  with_lock-run schedule job_id mode w t true s =
      finish-run schedule job_id mode w t (ingest services schedule job_id w t s)

  execute-run :
      (schedule : PollSchedule) (job_id : String) (mode : RunMode) (w : ObservationWindow) (t : ℕ)
      (s : S)
      → Gives (IsRunOf job_id mode) (execute services schedule job_id mode w t s)
  unfolding execute
  execute-run schedule job_id mode w t s =
      continue-Gives _ (services.acquire (lock_name schedule) s) _
        (λ acquired. with_lock-run schedule job_id mode w t acquired)

  run_job-run :
      (schedule : PollSchedule) (job_id : String) (mode : RunMode) (interval : ℕ)
      (window_for : Option IngestionCheckpoint → Result PlanError ObservationWindow) (t : ℕ) (s : S)
      → Gives (IsRunOf job_id mode) (run_job services schedule job_id mode interval window_for t s)
  unfolding run_job not_due
  run_job-run schedule job_id mode interval window_for t s =
      continue-Gives _ (services.get_checkpoint job_id s) _ (λ checkpoint s1.
        continue-Gives _ (lift services (is_due checkpoint (aware t) interval) s1) _ (λ due s2.
          branch-Gives _ due _ _ s2
            (continue-Gives _ (lift services (window_for checkpoint) s2) _
              (λ w. execute-run schedule job_id mode w t))
            refl))

  reconcile-runs :
      (schedule : PollSchedule) (every : Option ℕ) (t : ℕ) (s : S)
      → Gives
          (λ os. map run_of os ≡ reconciliation_of schedule every)
          (reconcile services schedule every t s)
  unfolding reconcile
  reconcile-runs schedule none t s = refl
  reconcile-runs schedule (some interval) t s =
      continue_known-Gives _ _ (run_job services schedule _ reconciliation interval _ t s) _
        (run_job-run schedule _ reconciliation interval _ t s) (λ o run s1. ap (λ x. x ∷ []) run)

  run_schedule-runs :
      (schedule : PollSchedule) (t : ℕ) (s : S)
      → Gives
          (λ os.
            map run_of os
            ≡ (schedule.job_id, incremental) ∷ reconciliation_of schedule schedule.reconcile_every)
          (run_schedule services schedule t s)
  unfolding run_schedule
  run_schedule-runs schedule t s =
      continue_known-Gives _ _ (run_job services schedule _ incremental schedule.cadence _ t s) _
        (run_job-run schedule _ incremental schedule.cadence _ t s)
        (λ o run s1.
          continue_known-Gives _ _ (reconcile services schedule schedule.reconcile_every t s1) _
            (reconcile-runs schedule schedule.reconcile_every t s1)
            (λ os runs s2. rw run (rw runs refl)))

  run_schedules-runs :
      (schedules : List PollSchedule) (t : ℕ) (s : S)
      → Gives (λ os. map run_of os ≡ runs_of schedules) (run_schedules services schedules t s)
  unfolding run_schedules
  run_schedules-runs [] t s = refl
  run_schedules-runs (schedule ∷ rest) t s =
      continue_known-Gives _ _ (run_schedule services schedule t s) _
        (run_schedule-runs schedule t s)
        (λ os runs s1.
          continue_known-Gives _ _ (run_schedules services rest t s1) _
            (run_schedules-runs rest t s1)
            (λ later runs' s2. rw (map-append run_of os later) (rw runs (rw runs' refl))))

  -- Whatever the repository, the locks, the adapters and the actions do: the outcomes of a tick that
  -- returns are one incremental run of each schedule, in the order of the schedules, each followed
  -- by a reconciliation run where the schedule has one enabled.
  pub run_once-runs :
      (schedules : List PollSchedule) (now : Option Datetime) (s s' : S)
      (outcomes : List RunOutcome)
      → run_once services schedules now s ≡ (ok outcomes, s')
      → map run_of outcomes ≡ runs_of schedules
  unfolding run_once
  run_once-runs schedules now s s' outcomes h =
      subst (Gives (λ os. map run_of os ≡ runs_of schedules)) h
        (continue-Gives _ (tick_time_of services now s) _ (run_schedules-runs schedules))
