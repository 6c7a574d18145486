-- ===== src/ForecastVerification/Selection.antt =====
-- app/forecast_verification/core.py: `_select_vintages` and `_select_outturn_revisions`, and what they
-- select.
use mathlib.Core.Path.{subst, sym}
use hz.Prelude.{
  ℕ, ◌-◌, ◌≡◌, ◌↔◌, Bool, true, ◌&&◌, not, Option, none, some, List, [], ◌∷◌, ◌++◌, leb, ltb, ◌==◌,
  ==_iff, filter, All, arith, Option-cases, inl, inr,
}
use hz.Prelude.Dicts.{Dict, values, lookup, items-lookup}
use hz.Prelude.Sorting.{sorted, All-sorted}
use hz.Prelude.Latest.{lex_lt, latest, IsLatest, latest-IsLatest, latest-Distinct}
use hz.ForecastVerification.{
  HorizonBucket, ForecastEvidence, OutturnEvidence, VintageBasis, effective_vintage_at,
  horizon_buckets, bucket_index, contains,
}
use hz.ForecastVerification.Buckets.{first_containing, first_containing_iff}

-- A valid time and a vintage.
abbrev pub Identity : Type 0
Identity = ℕ × ℕ

abbrev pub same_identity : Identity → Identity → Bool
same_identity (v, t) (w, u) = (v == w) && (t == u)

pub same_identity_iff : (i j : Identity) → (same_identity i j ≡ true) ↔ (i ≡ j)
same_identity_iff (v, t) (w, u) = ground arith

module _ {F : Type 0} where
  abbrev pub correction : ForecastEvidence F → List ℕ
  correction f = f.revision ∷ f.captured_at ∷ f.observation_id ∷ []

  in_bucket : Option HorizonBucket → ForecastEvidence F → List (HorizonBucket × ForecastEvidence F)
  in_bucket none f = []
  in_bucket (some b) f = (b, f) ∷ []

module _ {F : Type 0} (basis : VintageBasis) where
  abbrev pub identity : ForecastEvidence F → Identity
  identity f = (f.valid_from, effective_vintage_at basis f)

  -- `valid - basis`
  abbrev pub horizon_of : ForecastEvidence F → ℕ
  horizon_of f = f.valid_from - effective_vintage_at basis f

  -- the loop that gives each vintage its bucket
  bucketed : List (ForecastEvidence F) → List (HorizonBucket × ForecastEvidence F)
  unfolding in_bucket
  bucketed [] = []
  bucketed (f ∷ rest) =
      in_bucket (first_containing (horizon_of f) horizon_buckets) f ++ bucketed rest

  abbrev sort_key : HorizonBucket × ForecastEvidence F → List ℕ
  sort_key (b, f) =
      bucket_index b
      ∷ f.valid_from
      ∷ effective_vintage_at basis f
      ∷ f.revision
      ∷ f.observation_id
      ∷ []

module _ {F : Type 0} (start end : ℕ) (basis : VintageBasis) where
  -- the tests behind which the loop continues with the next forecast
  abbrev pub is_eligible : ForecastEvidence F → Bool
  is_eligible f =
      leb start f.valid_from
      && ltb f.valid_from end
      && leb (effective_vintage_at basis f) f.valid_from

  unfoldable pub latest_revision : List (ForecastEvidence F) → Dict Identity (ForecastEvidence F)
  latest_revision forecasts =
      latest same_identity (identity basis) correction (filter is_eligible forecasts) []

  unfoldable pub select_vintages :
      List (ForecastEvidence F) → List (HorizonBucket × ForecastEvidence F)
  unfolding bucketed
  select_vintages forecasts =
      sorted (λ x y. not (lex_lt (sort_key basis y) (sort_key basis x)))
        (bucketed basis (values (latest_revision forecasts)))

  -- What is selected is the latest correction of its vintage, in the bucket of its horizon.
  abbrev pub IsSelected : List (ForecastEvidence F) → HorizonBucket × ForecastEvidence F → Type 0
  IsSelected forecasts (b, f) =
      IsLatest same_identity (identity basis) correction (filter is_eligible forecasts)
        (identity basis f) (some f)
      × (contains b (horizon_of basis f) ≡ true)

module _ {F : Type 0} (start end : ℕ) (basis : VintageBasis)
    (forecasts : List (ForecastEvidence F)) where
  abbrev IsLatestForecast : ForecastEvidence F → Type 0
  IsLatestForecast f =
      IsLatest same_identity (identity basis) correction
        (filter (is_eligible start end basis) forecasts) (identity basis f) (some f)

  values-IsLatest :
      (d : Dict Identity (ForecastEvidence F))
      → All (λ x. lookup same_identity x.0 (latest_revision start end basis forecasts) ≡ some x.1) d
      → All IsLatestForecast (values d)
  unfolding values latest_revision
  values-IsLatest [] h = tt
  values-IsLatest ((k, f) ∷ d) h =
      let (among, same, greatest) = rw h.0 at (
        latest-IsLatest same_identity (identity basis) correction same_identity_iff k
          (filter (is_eligible start end basis) forecasts)) in
      let own = (same_identity_iff (identity basis f) k).0 same in
      (
        subst
            (λ i.
              IsLatest same_identity (identity basis) correction
                (filter (is_eligible start end basis) forecasts) i (some f))
            (sym own) (among, same, greatest),
        values-IsLatest d h.1,
      )

  latest_revision-IsLatest :
      All IsLatestForecast (values (latest_revision start end basis forecasts))
  unfolding latest_revision
  latest_revision-IsLatest = values-IsLatest (latest_revision start end basis forecasts) (
      items-lookup same_identity same_identity_iff (latest_revision start end basis forecasts) (
        latest-Distinct same_identity (identity basis) correction same_identity_iff
          (filter (is_eligible start end basis) forecasts) [] tt))

  bucketed-IsSelected :
      (fs : List (ForecastEvidence F))
      → All IsLatestForecast fs
      → All (IsSelected start end basis forecasts) (bucketed basis fs)
  unfolding bucketed in_bucket
  bucketed-IsSelected [] h = tt
  bucketed-IsSelected (f ∷ rest) h =
      elim (Option-cases (first_containing (horizon_of basis f) horizon_buckets)) [
        | inl beyond ↦ rw beyond (bucketed-IsSelected rest h.1)
        | inr (b, found) ↦ rw found (
          (h.0, (first_containing_iff (horizon_of basis f) b).0 found),
          bucketed-IsSelected rest h.1,
        )
      ]

  pub select_vintages-IsSelected :
      All (IsSelected start end basis forecasts) (select_vintages start end basis forecasts)
  unfolding select_vintages
  select_vintages-IsSelected = All-sorted _ _ _ (
      bucketed-IsSelected (values (latest_revision start end basis forecasts))
        latest_revision-IsLatest)

module _ {F : Type 0} (start end : ℕ) where
  abbrev pub in_window : OutturnEvidence F → Bool
  in_window o = leb start o.observed_at && ltb o.observed_at end

  abbrev pub outturn_revision : OutturnEvidence F → List ℕ
  outturn_revision o = o.revision ∷ o.retrieved_at ∷ o.observation_id ∷ []

  unfoldable pub select_outturn_revisions : List (OutturnEvidence F) → Dict ℕ (OutturnEvidence F)
  select_outturn_revisions outturns =
      latest ◌==◌ (λ o. o.observed_at) outturn_revision (filter in_window outturns) []

  abbrev pub IsLatestOutturn : List (OutturnEvidence F) → ℕ → Option (OutturnEvidence F) → Type 0
  IsLatestOutturn outturns =
      IsLatest ◌==◌ (λ o. o.observed_at) outturn_revision (filter in_window outturns)

  pub select_outturn_revisions-IsLatestOutturn :
      (outturns : List (OutturnEvidence F)) (t : ℕ)
      → IsLatestOutturn outturns t (lookup ◌==◌ t (select_outturn_revisions outturns))
  unfolding select_outturn_revisions
  select_outturn_revisions-IsLatestOutturn outturns t =
      latest-IsLatest ◌==◌ (λ o. o.observed_at) outturn_revision ==_iff t
        (filter in_window outturns)
