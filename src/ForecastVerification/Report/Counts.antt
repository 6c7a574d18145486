-- ===== src/ForecastVerification/Report/Counts.antt =====
-- What the results of a report count.
use hz.Prelude.{
  ℕ, ◌+◌, ◌≤◌, ◌≡◌, ◌↔◌, refl, ◌∙◌, ap, Bool, true, Option, none, some, List, [], ◌∷◌, All, length,
  length-append, map, ◌==◌, Bool-cases, inl, inr, arith, ok, leb,
}
use hz.Prelude.Dicts.{Dict, lookup}
use hz.Time.{aware}
use hz.ForecastVerification.{
  HorizonBucket, zero_to_three_hours, three_to_twelve_hours, twelve_to_twenty_four_hours,
  twenty_four_to_forty_eight_hours, VerificationTarget, ForecastEvidence, OutturnEvidence, Floats,
  horizon_buckets,
}
use hz.ForecastVerification.Selection.{select_vintages, select_outturn_revisions}
use hz.ForecastVerification.Report.{
  Checksums, VerificationResult, VerificationBundle, available, verify_forecasts, pair_with,
  bucket_pairs, in_horizon, pairs_in, all_pairs, all_results, aggregate, status_and_reason,
  minimum_verified_samples,
}

abbrev pub sum : {A : Type 0} → (A → ℕ) → List A → ℕ
sum f [] = 0
sum f (x ∷ xs) = f x + sum f xs

status_available :
    (expected verified : ℕ) (covered : Bool)
    → ((status_and_reason expected verified covered).0 ≡ available)
      ↔ ((minimum_verified_samples ≤ verified) × (covered ≡ true))
unfolding status_and_reason
status_available expected verified covered = ground arith

module _ {F : Type 0} (floats : Floats F) (checksums : Checksums F)
    (target : VerificationTarget) where
  -- A result with no more verified than expected samples, that is for display exactly when the
  -- samples and the coverage suffice.
  pub record IsCounted (r : VerificationResult F) : Type 0 where
    pub verified_le : r.verified_sample_count ≤ r.expected_sample_count
    pub eligible_iff : (r.status ≡ available) ↔ (
        (minimum_verified_samples ≤ r.verified_sample_count)
        × (floats.is_covered r.coverage_fraction ≡ true))

  length-pair_with :
      (b : HorizonBucket) (f : ForecastEvidence F) (o : Option (OutturnEvidence F))
      → length (pair_with floats checksums target b f o) ≤ 1
  unfolding pair_with
  length-pair_with b f none = omega arith
  length-pair_with b f (some o) = omega arith

  length-bucket_pairs-le :
      (b : HorizonBucket) (outturns : Dict ℕ (OutturnEvidence F)) (fs : List (ForecastEvidence F))
      → length (bucket_pairs floats checksums target b outturns fs) ≤ length fs
  unfolding bucket_pairs
  length-bucket_pairs-le b outturns [] = omega arith
  length-bucket_pairs-le b outturns (f ∷ fs) =
      let first = pair_with floats checksums target b f (lookup ◌==◌ f.valid_from outturns) in
      let rest = bucket_pairs floats checksums target b outturns fs in
      omega (
        arith,
        length-append first rest,
        length-pair_with b f (lookup ◌==◌ f.valid_from outturns),
        length-bucket_pairs-le b outturns fs,
      )

  module _ (outturns : Dict ℕ (OutturnEvidence F))
      (selected : List (HorizonBucket × ForecastEvidence F)) (start end : ℕ) where
    aggregate-IsCounted :
        (b : HorizonBucket)
        → IsCounted (
            aggregate floats checksums target b
              (in_horizon floats checksums target b selected)
              (pairs_in floats checksums target outturns selected start end b)
              start
              end)
    unfolding aggregate pairs_in
    aggregate-IsCounted b = record {
      verified_le =
          length-bucket_pairs-le b outturns (in_horizon floats checksums target b selected);
      eligible_iff = status_available _ _ _;
    }

    all_results-IsCounted :
        (bs : List HorizonBucket)
        → All IsCounted (all_results floats checksums target outturns selected start end bs)
    unfolding all_results
    all_results-IsCounted [] = tt
    all_results-IsCounted (b ∷ bs) = (aggregate-IsCounted b, all_results-IsCounted bs)

    horizons :
        (bs : List HorizonBucket)
        → map (λ r. r.horizon) (all_results floats checksums target outturns selected start end bs)
          ≡ bs
    unfolding all_results aggregate
    horizons [] = refl
    horizons (b ∷ bs) = ap (λ rest. b ∷ rest) (horizons bs)

    sum-verified :
        (bs : List HorizonBucket)
        → sum
            (λ r. r.verified_sample_count)
            (all_results floats checksums target outturns selected start end bs)
          ≡ length (all_pairs floats checksums target outturns selected start end bs)
    unfolding all_results all_pairs aggregate
    sum-verified [] = refl
    sum-verified (b ∷ bs) = omega (
      arith,
      sum-verified bs,
      length-append (pairs_in floats checksums target outturns selected start end b)
          (all_pairs floats checksums target outturns selected start end bs),
    )

    sum-expected :
        (bs : List HorizonBucket)
        → sum
            (λ r. r.expected_sample_count)
            (all_results floats checksums target outturns selected start end bs)
          ≡ sum (λ b. length (in_horizon floats checksums target b selected)) bs
    unfolding all_results aggregate
    sum-expected [] = refl
    sum-expected (b ∷ bs) = omega (arith, sum-expected bs)

  abbrev in_buckets : List (HorizonBucket × ForecastEvidence F) → ℕ
  in_buckets selected =
      sum (λ b. length (in_horizon floats checksums target b selected)) horizon_buckets

  one_more :
      (b : HorizonBucket) (f : ForecastEvidence F)
      (rest : List (HorizonBucket × ForecastEvidence F))
      → in_buckets ((b, f) ∷ rest) ≡ 1 + in_buckets rest
  unfolding in_horizon
  one_more zero_to_three_hours f rest = omega arith
  one_more three_to_twelve_hours f rest = omega arith
  one_more twelve_to_twenty_four_hours f rest = omega arith
  one_more twenty_four_to_forty_eight_hours f rest = omega arith

  each_once :
      (selected : List (HorizonBucket × ForecastEvidence F)) → in_buckets selected ≡ length selected
  unfolding in_horizon
  each_once [] = refl
  each_once ((b, f) ∷ rest) = omega (arith, one_more b f rest, each_once rest)

  -- A report has one result for each bucket, in order. Each selected vintage is expected in exactly
  -- one of them and each pair is counted in one; no result has more verified than expected samples,
  -- and one is for display exactly with at least 100 samples and enough coverage.
  pub verify_forecasts_counts :
      (forecasts : List (ForecastEvidence F)) (outturns : List (OutturnEvidence F)) (start end : ℕ)
      (bundle : VerificationBundle F)
      → verify_forecasts floats checksums target forecasts outturns (aware start) (aware end)
        ≡ ok bundle
      → (map (λ r. r.horizon) bundle.results ≡ horizon_buckets)
        × (sum (λ r. r.expected_sample_count) bundle.results
            ≡ length (select_vintages start end target.effective_vintage_time_basis forecasts))
        × (sum (λ r. r.verified_sample_count) bundle.results ≡ length bundle.pairs)
        × All IsCounted bundle.results
  unfolding verify_forecasts
  verify_forecasts_counts forecasts outturns start end bundle h =
      let selected = select_vintages start end target.effective_vintage_time_basis forecasts in
      let revisions = select_outturn_revisions start end outturns in
      elim (Bool-cases (leb end start)) [
        | inl empty ↦ let stopped = rw empty at h in absurd (ground arith)
        | inr positive ↦
            let made = rw positive at h in
            let whole : record {
              target = target;
              pairs =
                  all_pairs floats checksums target revisions selected start end horizon_buckets;
              results =
                  all_results floats checksums target revisions selected start end horizon_buckets;
            }
                ≡ bundle =
              ground arith in
            rw (← whole) (
              horizons revisions selected start end horizon_buckets,
              sum-expected revisions selected start end horizon_buckets ∙ each_once selected,
              sum-verified revisions selected start end horizon_buckets,
              all_results-IsCounted revisions selected start end horizon_buckets,
            )
      ]
