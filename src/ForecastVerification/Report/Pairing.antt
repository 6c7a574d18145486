-- ===== src/ForecastVerification/Report/Pairing.antt =====
-- What each reported pair compares.
use mathlib.Core.Path.{subst}
use hz.Prelude.{
  ℕ, ◌≡◌, ◌≤◌, ◌<◌, leb, refl, true, Option, none, some, List, [], ◌∷◌, All, All-append, ◌==◌,
  Bool-cases, inl, inr, arith, ok,
}
use mathlib.Core.List.{Mem}
use hz.Prelude.Members.{Mem-filter}
use hz.Prelude.Dicts.{Dict, lookup}
use hz.Time.{aware}
use hz.ForecastVerification.{
  HorizonBucket, zero_to_three_hours, three_to_twelve_hours, twelve_to_twenty_four_hours,
  twenty_four_to_forty_eight_hours, VerificationTarget, ForecastEvidence, OutturnEvidence, Floats,
  effective_vintage_at, horizon_buckets, same_bucket,
}
use hz.ForecastVerification.Selection.{
  select_vintages, select_outturn_revisions, IsSelected, IsLatestOutturn, is_eligible, in_window,
  select_vintages-IsSelected, select_outturn_revisions-IsLatestOutturn,
}
use hz.ForecastVerification.Report.{
  Checksums, VerificationPair, VerificationBundle, verify_forecasts, pair_with, bucket_pairs,
  in_horizon, pairs_in, all_pairs,
}

same_bucket-eq : (a b : HorizonBucket) → same_bucket a b ≡ true → a ≡ b
same_bucket-eq zero_to_three_hours b h = ground arith
same_bucket-eq three_to_twelve_hours b h = ground arith
same_bucket-eq twelve_to_twenty_four_hours b h = ground arith
same_bucket-eq twenty_four_to_forty_eight_hours b h = ground arith

module _ {F : Type 0} (floats : Floats F) (checksums : Checksums F) (target : VerificationTarget)
    (start end : ℕ) (forecasts : List (ForecastEvidence F))
    (outturns : List (OutturnEvidence F)) where
  abbrev IsChosen : HorizonBucket × ForecastEvidence F → Type 0
  IsChosen = IsSelected start end target.effective_vintage_time_basis forecasts

  -- A pair of the latest correction of a vintage, in the bucket of its horizon, with the latest
  -- revision of the outturn of the same time, and their errors.
  pub record IsVerified (p : VerificationPair F) : Type 0 where
    pub given : Mem p.forecast forecasts × Mem p.outturn outturns
    pub in_window : (start ≤ p.forecast.valid_from) × (p.forecast.valid_from < end)
    pub in_time :
        effective_vintage_at target.effective_vintage_time_basis p.forecast ≤ p.forecast.valid_from
    pub same_time : p.outturn.observed_at ≡ p.forecast.valid_from
    pub chosen :
        IsSelected start end target.effective_vintage_time_basis forecasts (p.horizon, p.forecast)
    pub compared : IsLatestOutturn start end outturns p.forecast.valid_from (some p.outturn)
    pub signed : p.signed_error ≡ floats.subtract p.forecast.value p.outturn.value
    pub absolute : p.absolute_error ≡ floats.absolute p.signed_error

  abbrev revisions : Dict ℕ (OutturnEvidence F)
  revisions = select_outturn_revisions start end outturns

  pair_with-IsVerified :
      (b : HorizonBucket) (f : ForecastEvidence F) (o : Option (OutturnEvidence F))
      → IsChosen (b, f)
      → IsLatestOutturn start end outturns f.valid_from o
      → All IsVerified (pair_with floats checksums target b f o)
  unfolding pair_with
  pair_with-IsVerified b f none h k = tt
  pair_with-IsVerified b f (some o) h k =
      let (eligible, given_forecast) =
        Mem-filter (is_eligible start end target.effective_vintage_time_basis) f forecasts h.0.0 in
      let (within, given_outturn) = Mem-filter (in_window start end) o outturns k.0 in
      (
        record {
          given = (given_forecast, given_outturn);
          in_window = (ground arith, ground arith);
          in_time = ground arith;
          same_time = ground arith;
          chosen = h;
          compared = k;
          signed = refl;
          absolute = refl;
        },
        tt,
      )

  bucket_pairs-IsVerified :
      (b : HorizonBucket) (fs : List (ForecastEvidence F))
      → All (λ f. IsChosen (b, f)) fs
      → All IsVerified (bucket_pairs floats checksums target b revisions fs)
  unfolding bucket_pairs
  bucket_pairs-IsVerified b [] h = tt
  bucket_pairs-IsVerified b (f ∷ fs) h =
      All-append IsVerified
        (pair_with floats checksums target b f (lookup ◌==◌ f.valid_from revisions))
        (bucket_pairs floats checksums target b revisions fs)
        (pair_with-IsVerified b f (lookup ◌==◌ f.valid_from revisions) h.0
          (select_outturn_revisions-IsLatestOutturn start end outturns f.valid_from))
        (bucket_pairs-IsVerified b fs h.1)

  in_horizon-IsChosen :
      (b : HorizonBucket) (selected : List (HorizonBucket × ForecastEvidence F))
      → All IsChosen selected
      → All (λ f. IsChosen (b, f)) (in_horizon floats checksums target b selected)
  unfolding in_horizon
  in_horizon-IsChosen b [] h = tt
  in_horizon-IsChosen b ((c, f) ∷ rest) h = elim (Bool-cases (same_bucket c b)) [
    | inl same ↦
        rw same (
          subst (λ x. IsChosen (x, f)) (same_bucket-eq c b same) h.0,
          in_horizon-IsChosen b rest h.1,
        )
    | inr other ↦ rw other (in_horizon-IsChosen b rest h.1)
  ]

  all_pairs-IsVerified :
      (selected : List (HorizonBucket × ForecastEvidence F)) (bs : List HorizonBucket)
      → All IsChosen selected
      → All IsVerified (all_pairs floats checksums target revisions selected start end bs)
  unfolding all_pairs pairs_in
  all_pairs-IsVerified selected [] h = tt
  all_pairs-IsVerified selected (b ∷ bs) h =
      All-append IsVerified _ _
        (bucket_pairs-IsVerified b (in_horizon floats checksums target b selected)
          (in_horizon-IsChosen b selected h))
        (all_pairs-IsVerified selected bs h)

  -- Each pair of a report compares the latest correction of a vintage, which was made no later than
  -- the time it is for, in the bucket that contains its horizon, with the latest revision of the
  -- outturn observed at exactly that time, both in the window, and states their difference.
  pub verify_forecasts-IsVerified :
      (bundle : VerificationBundle F)
      → verify_forecasts floats checksums target forecasts outturns (aware start) (aware end)
        ≡ ok bundle
      → All IsVerified bundle.pairs
  unfolding verify_forecasts
  verify_forecasts-IsVerified bundle h = elim (Bool-cases (leb end start)) [
    | inl empty ↦ let stopped = rw empty at h in absurd (ground arith)
    | inr positive ↦
        let made = rw positive at h in
        let selected = select_vintages start end target.effective_vintage_time_basis forecasts in
        let same : all_pairs floats checksums target revisions selected start end horizon_buckets
            ≡ bundle.pairs =
          ground arith in
        subst (λ ps. All IsVerified ps) same
          (all_pairs-IsVerified selected horizon_buckets
            (select_vintages-IsSelected start end target.effective_vintage_time_basis forecasts))
  ]
