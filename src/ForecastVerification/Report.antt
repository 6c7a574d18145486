-- ===== src/ForecastVerification/Report.antt =====
-- app/forecast_verification/core.py: pairs, the aggregate of a bucket and `verify_forecasts`. The
-- checksums are parameters: functions of the fields that the code puts in the JSON text it hashes.
pub mod Pairing
pub mod Counts
use hz.Prelude.{
  ℕ, ◌-◌, ◌≡◌, Bool, true, false, ◌&&◌, Option, none, some, List, [], ◌∷◌, ◌++◌, map, filter,
  length, leb, ltb, ◌==◌, max, String, if◌then◌else◌, Result, ok, err, raise_if, ◌>>=◌, ◌>>◌,
}
use hz.Prelude.Dicts.{Dict, lookup}
use hz.Time.{Datetime, as_utc}
use hz.ForecastVerification.{
  VerificationMetric, HorizonBucket, VerificationTarget, IssueBasis, issue_published,
  issue_unavailable, ForecastEvidence, OutturnEvidence, VerificationError, naive_time, empty_window,
  Floats, effective_vintage_at, horizon_buckets, same_bucket,
}
use hz.ForecastVerification.Selection.{select_vintages, select_outturn_revisions}

-- `pair_payload`, less the two version texts
pub record PairPayload (F : Type 0) : Type 0 where
  pub metric : VerificationMetric
  pub horizon : HorizonBucket
  pub valid_from : ℕ
  pub forecast_observation_id : ℕ
  pub forecast_revision : ℕ
  pub forecast_vintage_at : ℕ
  pub forecast_source_issued_at : Option ℕ
  pub forecast_captured_at : ℕ
  pub forecast_value : F
  pub outturn_observation_id : ℕ
  pub outturn_revision : ℕ
  pub outturn_value : F

-- an entry of `expectedVintages`
pub record ExpectedVintage (F : Type 0) : Type 0 where
  pub valid_from : ℕ
  pub vintage_at : ℕ
  pub source_issued_at : Option ℕ
  pub observation_id : ℕ
  pub revision : ℕ
  pub value : F

-- what the checksum of a result is taken of
pub record ResultPayload (F : Type 0) : Type 0 where
  pub metric : VerificationMetric
  pub horizon : HorizonBucket
  pub window_start : ℕ
  pub window_end : ℕ
  pub expected_vintages : List (ExpectedVintage F)
  pub pairs : List String

pub record Checksums (F : Type 0) : Type 0 where
  pub of_pair : PairPayload F → String
  pub of_result : ResultPayload F → String

pub record VerificationPair (F : Type 0) : Type 0 where
  pub horizon : HorizonBucket
  pub forecast : ForecastEvidence F
  pub outturn : OutturnEvidence F
  pub signed_error : F
  pub absolute_error : F
  pub content_sha256 : String

pub data Status : Type 0 where
  available insufficient_data : Status

pub data Reason : Type 0 where
  eligible no_forecasts no_compatible_outturns : Reason
  sample_and_coverage_thresholds_not_met fewer_than_100_verified_samples : Reason
  coverage_below_90_percent : Reason

pub record VerificationResult (F : Type 0) : Type 0 where
  pub horizon : HorizonBucket
  pub window_start : ℕ
  pub window_end : ℕ
  pub status : Status
  pub reason : Reason
  pub mae : Option F
  pub bias : Option F
  pub wape_percent : Option F
  pub verified_sample_count : ℕ
  pub expected_sample_count : ℕ
  pub coverage_fraction : F
  pub evidence_checksum : String
  pub source_watermark_at : Option ℕ

pub record VerificationBundle (F : Type 0) : Type 0 where
  pub target : VerificationTarget
  pub pairs : List (VerificationPair F)
  pub results : List (VerificationResult F)

abbrev pub minimum_verified_samples : ℕ
minimum_verified_samples = 100

source_issued_at : IssueBasis → ℕ → Option ℕ
source_issued_at issue_unavailable t = none
source_issued_at issue_published t = some t

-- `_status_and_reason`; `covered` is the test of the coverage.
unfoldable pub status_and_reason : ℕ → ℕ → Bool → Status × Reason
status_and_reason expected verified covered =
    if leb minimum_verified_samples verified && covered
    then (available, eligible)
    else if expected == 0
    then (insufficient_data, no_forecasts)
    else if verified == 0
    then (insufficient_data, no_compatible_outturns)
    else if ltb verified minimum_verified_samples
    then (if covered
        then (insufficient_data, fewer_than_100_verified_samples)
        else (insufficient_data, sample_and_coverage_thresholds_not_met))
    else (insufficient_data, coverage_below_90_percent)

-- `max(watermarks) if watermarks else None`
latest_of : List ℕ → Option ℕ
latest_of [] = none
latest_of (t ∷ ts) = elim (latest_of ts) [ none ↦ some t | some u ↦ some (max t u) ]

module _ {F : Type 0} (floats : Floats F) (checksums : Checksums F)
    (target : VerificationTarget) where
  payload_of : HorizonBucket → ForecastEvidence F → OutturnEvidence F → PairPayload F
  unfolding source_issued_at
  payload_of horizon f o = record {
    metric = target.metric;
    horizon = horizon;
    valid_from = f.valid_from;
    forecast_observation_id = f.observation_id;
    forecast_revision = f.revision;
    forecast_vintage_at = effective_vintage_at target.effective_vintage_time_basis f;
    forecast_source_issued_at = source_issued_at target.issue_time_basis f.issued_at;
    forecast_captured_at = f.captured_at;
    forecast_value = f.value;
    outturn_observation_id = o.observation_id;
    outturn_revision = o.revision;
    outturn_value = o.value;
  }

  -- The round of the loop over a bucket's forecasts; without an outturn it continues.
  pair_with :
      HorizonBucket → ForecastEvidence F → Option (OutturnEvidence F) → List (VerificationPair F)
  unfolding payload_of
  pair_with horizon f none = []
  pair_with horizon f (some o) =
      let signed = floats.subtract f.value o.value in
      record {
        horizon = horizon;
        forecast = f;
        outturn = o;
        signed_error = signed;
        absolute_error = floats.absolute signed;
        content_sha256 = checksums.of_pair (payload_of horizon f o);
      }
      ∷ []

  bucket_pairs :
      HorizonBucket
      → Dict ℕ (OutturnEvidence F)
      → List (ForecastEvidence F)
      → List (VerificationPair F)
  unfolding pair_with
  bucket_pairs horizon outturns [] = []
  bucket_pairs horizon outturns (f ∷ rest) =
      pair_with horizon f (lookup ◌==◌ f.valid_from outturns) ++ bucket_pairs horizon outturns rest

  -- the forecasts of one bucket
  in_horizon : HorizonBucket → List (HorizonBucket × ForecastEvidence F) → List (ForecastEvidence F)
  in_horizon horizon selected = map (λ x. x.1) (filter (λ x. same_bucket x.0 horizon) selected)

  expected_vintage : ForecastEvidence F → ExpectedVintage F
  unfolding source_issued_at
  expected_vintage f = record {
    valid_from = f.valid_from;
    vintage_at = effective_vintage_at target.effective_vintage_time_basis f;
    source_issued_at = source_issued_at target.issue_time_basis f.issued_at;
    observation_id = f.observation_id;
    revision = f.revision;
    value = f.value;
  }

  -- The three measures, of no pairs and of some.
  measures : List (VerificationPair F) → Option F × Option F × Option F
  measures [] = (none, none, none)
  measures (p ∷ ps) =
      let absolute_sum = floats.fsum (map (λ q. q.absolute_error) (p ∷ ps)) in
      let signed_sum = floats.fsum (map (λ q. q.signed_error) (p ∷ ps)) in
      let denominator = floats.fsum (map (λ q. floats.absolute q.outturn.value) (p ∷ ps)) in
      (
        some (floats.divide_count absolute_sum (length (p ∷ ps))),
        some (floats.divide_count signed_sum (length (p ∷ ps))),
        (if floats.is_safe denominator
            then some (floats.percent absolute_sum denominator)
            else none),
      )

  -- `_aggregate`
  aggregate :
      HorizonBucket
      → List (ForecastEvidence F)
      → List (VerificationPair F)
      → ℕ
      → ℕ
      → VerificationResult F
  unfolding measures expected_vintage latest_of
  aggregate horizon selected pairs start end =
      let expected = length selected in
      let verified = length pairs in
      let coverage =
        (if expected == 0 then floats.zero_float else floats.ratio verified expected) in
      let (mae, bias, wape) = measures pairs in
      let (status, reason) = status_and_reason expected verified (floats.is_covered coverage) in
      record {
        horizon = horizon;
        window_start = start;
        window_end = end;
        status = status;
        reason = reason;
        mae = mae;
        bias = bias;
        wape_percent = wape;
        verified_sample_count = verified;
        expected_sample_count = expected;
        coverage_fraction = coverage;
        evidence_checksum = checksums.of_result (record {
          metric = target.metric;
          horizon = horizon;
          window_start = start;
          window_end = end;
          expected_vintages = map expected_vintage selected;
          pairs = map (λ p. p.content_sha256) pairs;
        });
        source_watermark_at =
            latest_of
              (map (λ f. f.captured_at) selected ++ map (λ p. p.outturn.retrieved_at) pairs);
      }

  module _ (outturns : Dict ℕ (OutturnEvidence F))
      (selected : List (HorizonBucket × ForecastEvidence F)) (start end : ℕ) where
    pairs_in : HorizonBucket → List (VerificationPair F)
    unfolding bucket_pairs in_horizon
    pairs_in horizon = bucket_pairs horizon outturns (in_horizon horizon selected)

    -- the loop over the buckets
    all_pairs : List HorizonBucket → List (VerificationPair F)
    unfolding pairs_in
    all_pairs [] = []
    all_pairs (b ∷ bs) = pairs_in b ++ all_pairs bs

    all_results : List HorizonBucket → List (VerificationResult F)
    unfolding aggregate
    all_results [] = []
    all_results (b ∷ bs) =
        aggregate b (in_horizon b selected) (pairs_in b) start end ∷ all_results bs

  unfoldable pub verify_forecasts :
      List (ForecastEvidence F)
      → List (OutturnEvidence F)
      → Datetime
      → Datetime
      → Result VerificationError (VerificationBundle F)
  unfolding all_pairs all_results
  verify_forecasts forecasts outturns window_start window_end = do
    start ← as_utc naive_time window_start
    end ← as_utc naive_time window_end
    raise_if (leb end start) empty_window
    let selected = select_vintages start end target.effective_vintage_time_basis forecasts
    let revisions = select_outturn_revisions start end outturns
    ok (record {
      target = target;
      pairs = all_pairs revisions selected start end horizon_buckets;
      results = all_results revisions selected start end horizon_buckets;
    })
