-- ===== src/ForecastVerification/Tests.antt =====
-- Two forecasts of one half-hour, a correction of one of them, an outturn and its revision.
use hz.Prelude.{
  ℕ, ◌*◌, ◌-◌, ◌≡◌, ◌↔◌, refl, true, none, some, List, [], ◌∷◌, All, length, ltb, ok, err, map,
}
use hz.Prelude.Int.{pos, negsuc}
use hz.Prelude.Dicts.{lookup, insert, values}
use hz.Prelude.Sorting.{sorted, insert_sorted}
use hz.Prelude.Latest.{lex_lt, latest}
use hz.Time.{aware, hours}
use hz.ForecastVerification.{
  HorizonBucket, zero_to_three_hours, three_to_twelve_hours, twelve_to_twenty_four_hours,
  twenty_four_to_forty_eight_hours, VerificationTarget, national_demand, issue_published,
  published_time, target_by_metric, build_target, bases_disagree, source_published_time_basis,
  source_issue_time_unavailable, Floats, ForecastEvidence, OutturnEvidence, build_forecast,
  build_outturn, negative_revision, horizon_buckets, contains, effective_vintage_at,
}
use hz.ForecastVerification.Buckets.{first_containing, first_containing_iff}
use hz.ForecastVerification.Selection.{select_vintages, select_outturn_revisions, latest_revision}
use hz.ForecastVerification.Report.{
  Checksums, VerificationBundle, VerificationPair, VerificationResult, verify_forecasts,
  status_and_reason, no_forecasts, insufficient_data, fewer_than_100_verified_samples,
}
use hz.ForecastVerification.Report.Pairing.{IsVerified, verify_forecasts-IsVerified}
use hz.ForecastVerification.Report.Counts.{sum, IsCounted, verify_forecasts_counts}

first_containing_iff_example :
    (first_containing (hours 3) horizon_buckets ≡ some three_to_twelve_hours)
    ↔ (contains three_to_twelve_hours (hours 3) ≡ true)
first_containing_iff_example = first_containing_iff (hours 3) three_to_twelve_hours

-- floats that are whole and not negative
abbrev whole : Floats ℕ
whole = record {
  is_finite = λ a. true;
  subtract = λ a b. a - b;
  absolute = λ a. a;
  fsum = sum (λ a. a);
  divide_count = λ a n. a;
  ratio = λ n m. n;
  zero_float = 0;
  is_covered = λ a. ltb 0 a;
  is_safe = λ a. ltb 0 a;
  percent = λ a b. a * 100;
}

abbrev checksums : Checksums ℕ
checksums = record { of_pair = λ p. "pair"; of_result = λ r. "result" }

abbrev demand : VerificationTarget
demand = record {
  metric = national_demand;
  issue_time_basis = issue_published;
  effective_vintage_time_basis = published_time;
  expected_interval_minutes = 30;
}

demand_target : target_by_metric national_demand ≡ ok demand
unfolding target_by_metric
demand_target = refl

mixed_bases :
    build_target national_demand source_issue_time_unavailable source_published_time_basis 30
    ≡ err bases_disagree
unfolding build_target
mixed_bases = refl

abbrev first : ForecastEvidence ℕ
first = record {
  observation_id = 1;
  valid_from = hours 20;
  issued_at = hours 18;
  captured_at = hours 18;
  value = 100;
  revision = 0;
}

abbrev corrected : ForecastEvidence ℕ
corrected = record first { observation_id = 2; value = 110; revision = 1 }

abbrev earlier : ForecastEvidence ℕ
earlier = record first { observation_id = 3; issued_at = hours 10; value = 120 }

abbrev outturn : OutturnEvidence ℕ
outturn = record {
  observation_id = 4;
  observed_at = hours 20;
  retrieved_at = hours 21;
  value = 90;
  revision = 0;
}

abbrev revised : OutturnEvidence ℕ
revised = record outturn { observation_id = 5; value = 95; revision = 1 }

built :
    build_forecast whole 1 (aware (hours 20)) (aware (hours 18)) (aware (hours 18)) 100 (pos 0)
    ≡ ok first
unfolding build_forecast
built = refl

negative :
    build_outturn whole 4 (aware (hours 20)) (aware (hours 21)) 90 (negsuc 0)
    ≡ err negative_revision
unfolding build_outturn
negative = refl

abbrev pair_of : HorizonBucket → ForecastEvidence ℕ → ℕ → VerificationPair ℕ
pair_of b f e = record {
  horizon = b;
  forecast = f;
  outturn = revised;
  signed_error = e;
  absolute_error = e;
  content_sha256 = "pair";
}

abbrev selected : List (HorizonBucket × ForecastEvidence ℕ)
selected = (zero_to_three_hours, corrected) ∷ (three_to_twelve_hours, earlier) ∷ []

vintages : select_vintages 0 (hours 24) published_time (earlier ∷ corrected ∷ first ∷ []) ≡ selected
unfolding select_vintages latest_revision latest lookup insert lex_lt first_containing contains
    values sorted insert_sorted effective_vintage_at
vintages = refl

abbrev sampled : HorizonBucket → ℕ → VerificationResult ℕ
sampled b e = record {
  horizon = b;
  window_start = 0;
  window_end = hours 24;
  status = insufficient_data;
  reason = fewer_than_100_verified_samples;
  mae = some e;
  bias = some e;
  wape_percent = some (e * 100);
  verified_sample_count = 1;
  expected_sample_count = 1;
  coverage_fraction = 1;
  evidence_checksum = "result";
  source_watermark_at = some (hours 21);
}

abbrev unsampled : HorizonBucket → VerificationResult ℕ
unsampled b = record {
  horizon = b;
  window_start = 0;
  window_end = hours 24;
  status = insufficient_data;
  reason = no_forecasts;
  mae = none;
  bias = none;
  wape_percent = none;
  verified_sample_count = 0;
  expected_sample_count = 0;
  coverage_fraction = 0;
  evidence_checksum = "result";
  source_watermark_at = none;
}

abbrev report : VerificationBundle ℕ
report = record {
  target = demand;
  pairs = pair_of zero_to_three_hours corrected 15 ∷ pair_of three_to_twelve_hours earlier 25 ∷ [];
  results =
      sampled zero_to_three_hours 15
      ∷ sampled three_to_twelve_hours 25
      ∷ unsampled twelve_to_twenty_four_hours
      ∷ unsampled twenty_four_to_forty_eight_hours
      ∷ [];
}

reported :
    verify_forecasts whole checksums demand
      (earlier ∷ corrected ∷ first ∷ [])
      (revised ∷ outturn ∷ [])
      (aware 0)
      (aware (hours 24))
    ≡ ok report
unfolding verify_forecasts select_vintages latest_revision latest lookup insert lex_lt
    first_containing contains values sorted insert_sorted effective_vintage_at
    select_outturn_revisions status_and_reason
reported = refl

verify_forecasts-IsVerified_example :
    All
      (IsVerified whole checksums demand 0
        (hours 24)
        (earlier ∷ corrected ∷ first ∷ [])
        (revised ∷ outturn ∷ []))
      report.pairs
verify_forecasts-IsVerified_example =
    verify_forecasts-IsVerified whole checksums demand 0 (hours 24)
      (earlier ∷ corrected ∷ first ∷ []) (revised ∷ outturn ∷ []) report reported

verify_forecasts_counts_example :
    (map (λ r. r.horizon) report.results ≡ horizon_buckets)
    × (sum (λ r. r.expected_sample_count) report.results
        ≡ length (select_vintages 0 (hours 24) published_time (earlier ∷ corrected ∷ first ∷ [])))
    × (sum (λ r. r.verified_sample_count) report.results ≡ length report.pairs)
    × All (IsCounted whole checksums demand) report.results
verify_forecasts_counts_example =
    verify_forecasts_counts whole checksums demand (earlier ∷ corrected ∷ first ∷ [])
      (revised ∷ outturn ∷ []) 0 (hours 24) report reported
