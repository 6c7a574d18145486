-- ===== src/Retention/Tests.antt =====
-- A repository of rows, and the theorems about the cleanup at it.
use hz.Prelude.{ℕ, ◌*◌, ◌-◌, ◌≤◌, ◌≡◌, ◌↔◌, refl, true, false, ok, arith, min}
use hz.Prelude.Int.{pos}
use hz.Time.{aware}
use hz.Retention.{
  RetentionWorker, build_worker, run_once, cutoff_of, Repository, RetentionOutcome, batches,
  delete_checked, run_at,
}
use hz.Retention.Runs.{run_at_bounds}

-- the state is the number of rows older than any cutoff
abbrev table : Repository ℕ
table = record { delete_batch = λ cutoff limit n. (ok (pos (min limit n)), n - limit) }

abbrev outcome : RetentionOutcome
outcome = record { cutoff = 5; deleted_rows = 60; batch_attempts = 3; hit_batch_limit = false }

run_of_sixty : (run_at table 25 8 5 60).0 ≡ ok outcome
unfolding run_at batches delete_checked
run_of_sixty = refl

run_at_bounds_example :
    (3 ≤ 8) × (60 ≤ 3 * 25) × ((outcome.hit_batch_limit ≡ true) ↔ (outcome.deleted_rows ≡ 8 * 25))
run_at_bounds_example =
    run_at_bounds table 5 25 (omega arith) 8 60 (omega arith) outcome run_of_sixty

settings : RetentionWorker
settings = record {
  retention = pos 10;
  interval = pos 60;
  batch_size = pos 25;
  max_batches = pos 8;
}

settings_built : build_worker settings ≡ ok settings
unfolding settings build_worker
settings_built = refl

run_at_fifteen : (run_once table 10 25 8 (aware 15) 60).0 ≡ ok outcome
unfolding run_once run_at batches delete_checked cutoff_of
run_at_fifteen = refl
