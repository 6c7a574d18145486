-- ===== src/Retention.antt =====
-- app/worker/retention.py: one run of the raw-payload cleanup. The repository is not part of it: it is
-- a step on a state of its own, which may raise, and its count is an integer that is checked here.
pub mod Runs
mod Tests
use hz.Prelude.{
  ℕ, zero, suc, ◌+◌, ◌-◌, Bool, true, false, ◌&&◌, ◌||◌, not, leb, ltb, ◌==◌, Option, none, some,
  if◌then◌else◌, Result, ok, err, raise_if, ◌>>=◌, ◌>>◌,
}
use hz.Prelude.Int.{ℤ, pos, negsuc, leb_ℤ, ltb_ℤ}
use hz.Time.{Datetime, as_utc, minus}

pub data RetentionError : Type 0 where
  retention_not_positive interval_not_positive bounds_not_positive : RetentionError
  naive_clock instant_overflow invalid_delete_count repository_failure : RetentionError

-- `delete_batch(before=…, limit=…)`, on the state of the repository.
pub record Repository (S : Type 0) : Type 0 where
  pub delete_batch : ℕ → ℕ → S → Result RetentionError ℤ × S

-- The settings of `RawPayloadRetentionWorker`; the durations are signed.
pub record RetentionWorker : Type 0 where
  pub retention : ℤ
  pub interval : ℤ
  pub batch_size : ℤ
  pub max_batches : ℤ

pub build_worker : RetentionWorker → Result RetentionError RetentionWorker
build_worker w = do
  raise_if (leb_ℤ w.retention (pos 0)) retention_not_positive
  raise_if (leb_ℤ w.interval (pos 0)) interval_not_positive
  raise_if (leb_ℤ w.batch_size (pos 0) || leb_ℤ w.max_batches (pos 0)) bounds_not_positive
  ok w

pub record RetentionOutcome : Type 0 where
  pub cutoff : ℕ
  pub deleted_rows : ℕ
  pub batch_attempts : ℕ
  pub hit_batch_limit : Bool

-- `if not 0 <= last_batch <= self.batch_size: raise`
check_count : ℕ → ℤ → Result RetentionError ℕ
check_count size (negsuc n) = err invalid_delete_count
check_count size (pos n) = do raise_if (not (leb n size)) invalid_delete_count; ok n

-- What the loop has when it ends: rows deleted, batches made, and the last batch.
pub record Progress : Type 0 where
  pub deleted : ℕ
  pub attempts : ℕ
  pub last : ℕ

counted : Progress → ℕ → Progress
counted p n = record { deleted = p.deleted + n; attempts = p.attempts + 1; last = n }

-- The rest of a round: a short batch breaks the loop, and `next` is the loop's further rounds.
after_batch :
    {S : Type 0}
    → ℕ
    → Progress
    → Result RetentionError ℕ
    → S
    → (Progress → Result RetentionError Progress × S)
    → Result RetentionError Progress × S
unfolding counted
after_batch size p (err e) s next = (err e, s)
after_batch size p (ok n) s next =
    let more = next (counted p n) in if ltb n size then (ok (counted p n), s) else more

module _ {S : Type 0} (repository : Repository S) (cutoff size : ℕ) where
  -- one batch and the check of its count
  unfoldable pub delete_checked : S → Result RetentionError ℕ × S
  unfolding check_count
  delete_checked s =
      let (r, s') = repository.delete_batch cutoff size s in (r >>= check_count size, s')

  -- The rounds of the `for` loop that are left.
  unfoldable pub batches : ℕ → Progress → S → Result RetentionError Progress × S
  unfolding after_batch
  batches zero p s = (ok p, s)
  batches (suc left) p s =
      let (r, s') = delete_checked s in after_batch size p r s' (λ p'. batches left p' s')

abbrev pub start : Progress
start = record { deleted = 0; attempts = 0; last = 0 }

outcome : ℕ → ℕ → ℕ → Progress → RetentionOutcome
outcome cutoff size max_batches p = record {
  cutoff = cutoff;
  deleted_rows = p.deleted;
  batch_attempts = p.attempts;
  hit_batch_limit = p.attempts == max_batches && p.last == size;
}

abbrev pub and_then {ℓ κ} :
    {E : Type 0} {A : Type ℓ} {B : Type κ} {S : Type 0} → (A → B) → Result E A × S → Result E B × S
and_then f (err e, s) = (err e, s)
and_then f (ok a, s) = (ok (f a), s)

-- `run_once`, with positive settings: `now` is the argument or what the clock reads.
unfoldable pub run_at :
    {S : Type 0}
    → Repository S
    → (size max_batches : ℕ) → ℕ
    → S
    → Result RetentionError RetentionOutcome × S
unfolding batches outcome
run_at repository size max_batches cutoff s =
    and_then (outcome cutoff size max_batches) (batches repository cutoff size max_batches start s)

-- `cutoff = _utc(now or self.clock()) - self.retention`
pub cutoff_of : Datetime → ℕ → Result RetentionError ℕ
cutoff_of now retention = do
  instant ← as_utc naive_clock now
  minus instant_overflow instant retention

pub run_once :
    {S : Type 0}
    → Repository S
    → (retention size max_batches : ℕ) → Datetime
    → S
    → Result RetentionError RetentionOutcome × S
unfolding cutoff_of
run_once repository retention size max_batches now s = elim (cutoff_of now retention) [
  | err e ↦ (err e, s)
  | ok cutoff ↦ run_at repository size max_batches cutoff s
]
