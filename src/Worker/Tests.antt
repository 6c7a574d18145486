-- ===== src/Worker/Tests.antt =====
-- A schedule, services over a counter of calls, and the theorems about the worker at them.
use hz.Prelude.{
  ℕ, ◌+◌, ◌≤◌, ◌<◌, ◌≡◌, ◌⊎◌, refl, true, false, some, none, [], ◌∷◌, ok, err, arith, map,
  if◌then◌else◌, ltb,
}
use hz.Time.{aware, minutes, hours}
use hz.Worker.{
  PollSchedule, IngestionCheckpoint, ObservationWindow, incremental, reconciliation, build_schedule,
  incremental_window, reconciliation_window, is_due, lock_name, reconciliation_job_id, succeeded,
  failed, build_window, duplicate_job,
}
use hz.Worker.Windows.{incremental_window_bounds, incremental_window_total}
use hz.Worker.Execution.{
  Services, RunOutcome, run_once, run_forever, build_worker, execute, run_schedule, run_schedules,
}
use hz.Worker.Execution.Outcomes.{run_once-runs, run_of}

abbrev fuel : PollSchedule
fuel = record {
  job_id = "fuel";
  source_id = "elexon";
  cadence = minutes 5;
  overlap = minutes 30;
  initial_lookback = hours 2;
  max_incremental_lookback = hours 48;
  reconcile_every = some (hours 1);
  reconcile_lookback = hours 48;
}

abbrev polled : IngestionCheckpoint
polled = record {
  job_id = "fuel";
  last_attempted_at = hours 100;
  last_succeeded_at = some (hours 100);
  window_end = some (hours 100);
}

abbrev now : ℕ
now = hours 101

fuel_valid : build_schedule fuel ≡ ok fuel
unfolding build_schedule
fuel_valid = refl

abbrev window : ObservationWindow
window = record { start = hours 99 + minutes 30; end = now }

fuel_window : incremental_window fuel (some polled) (aware now) ≡ ok window
unfolding incremental_window build_window
fuel_window = refl

incremental_window_bounds_example :
    (window.end ≡ now)
    × (window.start < window.end)
    × (now ≤ window.start + hours 48)
    × ((end : ℕ)
        → some (hours 100) ≡ some end
        → end ≤ now
        → (window.start < end) ⊎ (window.start + hours 48 ≡ now))
incremental_window_bounds_example =
    incremental_window_bounds fuel fuel_valid (some polled) now window fuel_window

incremental_window_total_example :
    (w : ObservationWindow) × (incremental_window fuel (some polled) (aware now) ≡ ok w)
incremental_window_total_example =
    incremental_window_total fuel fuel_valid (some polled) now (omega arith) (omega arith)
      (λ end e. ground arith)

-- The state counts the fetches; the second one fails, and so does the action.
abbrev services : Services ℕ ℕ
services = record {
  get_checkpoint = λ job s. (ok (some polled), s);
  acquire = λ lock s. (ok true, s);
  release = λ lock s. s;
  fetch = λ source w s. (
    if ltb s 1 then ok 7 else err (record { error_type = "TimeoutError"; error_message = [] }),
    s + 1,
  );
  record_count = λ r. r;
  persist_success = λ job r a c s. (ok (record { inserted = r; updated = 0; unchanged = 0 }), s);
  record_failure = λ job w a f e s. (ok tt, s);
  clock = λ s. (aware now, s);
  actions =
      (λ context s. (err (record { error_type = "ValueError"; error_message = [] }), s + 10)) ∷ [];
  plan_failure = λ e. record { error_type = "ValueError"; error_message = [] };
}

abbrev fetched : RunOutcome
fetched = record {
  job_id = "fuel";
  mode = incremental;
  status = succeeded;
  window = some window;
  record_count = 7;
  persistence = some (record { inserted = 7; updated = 0; unchanged = 0 });
  error = none;
}

abbrev timed_out : RunOutcome
timed_out = record {
  job_id = "fuel.reconcile";
  mode = reconciliation;
  status = failed;
  window = some (record { start = hours 53; end = now });
  record_count = 0;
  persistence = none;
  error = some (record { error_type = "TimeoutError"; error_message = [] });
}

-- a success whose action raises, and a failure
tick : run_once services (fuel ∷ []) (some (aware now)) 0 ≡ (ok (fetched ∷ timed_out ∷ []), 12)
unfolding run_once run_schedules run_schedule execute is_due incremental_window
    reconciliation_window build_window lock_name reconciliation_job_id
tick = refl

run_once-runs_example :
    map run_of (fetched ∷ timed_out ∷ [])
    ≡ ("fuel", incremental) ∷ (reconciliation_job_id fuel, reconciliation) ∷ []
run_once-runs_example =
    run_once-runs services (fuel ∷ []) (some (aware now)) 0 12 (fetched ∷ timed_out ∷ []) tick

two_ticks : run_forever services (fuel ∷ []) (false ∷ true ∷ false ∷ []) 0 ≡ 12
unfolding run_forever run_once run_schedules run_schedule execute is_due incremental_window
    reconciliation_window build_window
two_ticks = refl

same_job_twice : build_worker (fuel ∷ fuel ∷ []) ≡ err duplicate_job
unfolding build_worker
same_job_twice = refl
