-- ===== src/ForecastVerification.antt =====
-- app/forecast_verification/core.py: metrics, horizon buckets, targets and evidence. Horizons are
-- microseconds. A UUID is its number, because the order of the texts of UUIDs is that of the numbers.
-- Floats are the parameter `Floats`.
pub mod Buckets
pub mod Selection
pub mod Report
mod Tests
use hz.Prelude.{
  ℕ, ◌-◌, ◌*◌, Bool, true, false, ◌&&◌, ◌||◌, not, Option, none, some, List, [], ◌∷◌, String, leb,
  ltb, ◌==◌, str_eq, if◌then◌else◌, Result, ok, err, raise_if, ◌>>=◌, ◌>>◌,
}
use hz.Prelude.Int.{ℤ, pos, negsuc}
use hz.Time.{Datetime, as_utc, hours}

pub data VerificationError : Type 0 where
  naive_time not_finite negative_revision : VerificationError
  issue_basis_unreviewed vintage_basis_unreviewed bases_disagree cadence_unreviewed :
      VerificationError
  empty_window : VerificationError

pub data VerificationMetric : Type 0 where
  national_demand wind_generation national_carbon_intensity : VerificationMetric

pub data HorizonBucket : Type 0 where
  zero_to_three_hours three_to_twelve_hours : HorizonBucket
  twelve_to_twenty_four_hours twenty_four_to_forty_eight_hours : HorizonBucket

unfoldable pub minimum_hours : HorizonBucket → ℕ
minimum_hours zero_to_three_hours = 0
minimum_hours three_to_twelve_hours = 3
minimum_hours twelve_to_twenty_four_hours = 12
minimum_hours twenty_four_to_forty_eight_hours = 24

unfoldable pub maximum_hours : HorizonBucket → ℕ
maximum_hours zero_to_three_hours = 3
maximum_hours three_to_twelve_hours = 12
maximum_hours twelve_to_twenty_four_hours = 24
maximum_hours twenty_four_to_forty_eight_hours = 48

is_last : HorizonBucket → Bool
is_last twenty_four_to_forty_eight_hours = true
is_last _ = false

-- `contains`
unfoldable pub contains : HorizonBucket → ℕ → Bool
unfolding minimum_hours maximum_hours is_last
contains bucket horizon =
    (leb (hours (minimum_hours bucket)) horizon && ltb horizon (hours (maximum_hours bucket)))
    || (is_last bucket && (horizon == hours (maximum_hours bucket)))

abbrev pub horizon_buckets : List HorizonBucket
horizon_buckets =
    zero_to_three_hours ∷ three_to_twelve_hours ∷ twelve_to_twenty_four_hours
    ∷ twenty_four_to_forty_eight_hours ∷ []

-- `HORIZON_BUCKETS.index(bucket)`
abbrev pub bucket_index : HorizonBucket → ℕ
bucket_index zero_to_three_hours = 0
bucket_index three_to_twelve_hours = 1
bucket_index twelve_to_twenty_four_hours = 2
bucket_index twenty_four_to_forty_eight_hours = 3

-- `bucket is horizon`
abbrev pub same_bucket : HorizonBucket → HorizonBucket → Bool
same_bucket a b = bucket_index a == bucket_index b

-- app/forecast_contract.py
abbrev pub source_issue_time_unavailable : String
source_issue_time_unavailable = "source_does_not_publish_issue_time"

abbrev pub capture_time_issue_basis : String
capture_time_issue_basis = "retrieved_at"

abbrev pub source_published_time_basis : String
source_published_time_basis = "source_published_at"

-- what the two texts of a target that has been checked say
pub data IssueBasis : Type 0 where
  issue_published issue_unavailable : IssueBasis

pub data VintageBasis : Type 0 where
  published_time capture_time : VintageBasis

-- The fields that the verification reads; the others are names for display.
pub record VerificationTarget : Type 0 where
  pub metric : VerificationMetric
  pub issue_time_basis : IssueBasis
  pub effective_vintage_time_basis : VintageBasis
  pub expected_interval_minutes : ℕ

check_issue_basis : String → Result VerificationError IssueBasis
check_issue_basis text =
    if str_eq text source_published_time_basis
    then ok issue_published
    else if str_eq text source_issue_time_unavailable
    then ok issue_unavailable
    else err issue_basis_unreviewed

check_vintage_basis : String → Result VerificationError VintageBasis
check_vintage_basis text =
    if str_eq text source_published_time_basis
    then ok published_time
    else if str_eq text capture_time_issue_basis
    then ok capture_time
    else err vintage_basis_unreviewed

agree : IssueBasis → VintageBasis → Bool
agree issue_published published_time = true
agree issue_unavailable capture_time = true
agree _ _ = false

-- `VerificationTarget(…)` with its `__post_init__`
unfoldable pub build_target :
    VerificationMetric → String → String → ℕ → Result VerificationError VerificationTarget
unfolding check_issue_basis check_vintage_basis agree
build_target metric issue_text vintage_text minutes = do
  issue ← check_issue_basis issue_text
  vintage ← check_vintage_basis vintage_text
  raise_if (not (agree issue vintage)) bases_disagree
  raise_if (not ((minutes == 30) || (minutes == 60))) cadence_unreviewed
  ok (record {
    metric = metric;
    issue_time_basis = issue;
    effective_vintage_time_basis = vintage;
    expected_interval_minutes = minutes;
  })

abbrev target_texts : VerificationMetric → String × String × ℕ
target_texts national_demand = (source_published_time_basis, source_published_time_basis, 30)
target_texts wind_generation = (source_published_time_basis, source_published_time_basis, 60)
target_texts national_carbon_intensity =
    (source_issue_time_unavailable, capture_time_issue_basis, 30)

-- `TARGET_BY_METRIC[metric]`
unfoldable pub target_by_metric : VerificationMetric → Result VerificationError VerificationTarget
unfolding build_target
target_by_metric metric =
    let (issue, vintage, minutes) = target_texts metric in build_target metric issue vintage minutes

-- What the verification uses of floats.
pub record Floats (F : Type 0) : Type 0 where
  pub is_finite : F → Bool
  pub subtract : F → F → F
  pub absolute : F → F
  -- `math.fsum`
  pub fsum : List F → F
  -- `a / n` and `n / m` of counts
  pub divide_count : F → ℕ → F
  pub ratio : ℕ → ℕ → F
  pub zero_float : F
  -- `coverage >= 0.90` and `denominator > 1e-9`
  pub is_covered : F → Bool
  pub is_safe : F → Bool
  -- `a / b * 100.0`
  pub percent : F → F → F

pub record ForecastEvidence (F : Type 0) : Type 0 where
  pub observation_id : ℕ
  pub valid_from : ℕ
  pub issued_at : ℕ
  pub captured_at : ℕ
  pub value : F
  pub revision : ℕ

pub record OutturnEvidence (F : Type 0) : Type 0 where
  pub observation_id : ℕ
  pub observed_at : ℕ
  pub retrieved_at : ℕ
  pub value : F
  pub revision : ℕ

check_revision : ℤ → Result VerificationError ℕ
check_revision (pos n) = ok n
check_revision (negsuc n) = err negative_revision

-- `ForecastEvidence(…)` and `OutturnEvidence(…)` with their `__post_init__`
module _ {F : Type 0} (floats : Floats F) where
  unfoldable pub build_forecast :
      ℕ → Datetime → Datetime → Datetime → F → ℤ → Result VerificationError (ForecastEvidence F)
  unfolding check_revision
  build_forecast id valid issued captured value revision = do
    valid_from ← as_utc naive_time valid
    issued_at ← as_utc naive_time issued
    captured_at ← as_utc naive_time captured
    raise_if (not (floats.is_finite value)) not_finite
    n ← check_revision revision
    ok (record {
      observation_id = id;
      valid_from = valid_from;
      issued_at = issued_at;
      captured_at = captured_at;
      value = value;
      revision = n;
    })

  unfoldable pub build_outturn :
      ℕ → Datetime → Datetime → F → ℤ → Result VerificationError (OutturnEvidence F)
  unfolding check_revision
  build_outturn id observed retrieved value revision = do
    observed_at ← as_utc naive_time observed
    retrieved_at ← as_utc naive_time retrieved
    raise_if (not (floats.is_finite value)) not_finite
    n ← check_revision revision
    ok (record {
      observation_id = id;
      observed_at = observed_at;
      retrieved_at = retrieved_at;
      value = value;
      revision = n;
    })

-- `_effective_vintage_at`; a checked target has no third basis.
unfoldable pub effective_vintage_at : {F : Type 0} → VintageBasis → ForecastEvidence F → ℕ
effective_vintage_at capture_time forecast = forecast.captured_at
effective_vintage_at published_time forecast = forecast.issued_at
