-- ===== src/SourceHealth/Tests.antt =====
-- Two sources, and the theorems about their status at them.
use hz.Prelude.{String, ◌≤◌, ◌≡◌, refl, some, none, [], ◌∷◌, true, false, ok, arith, map, length}
use hz.Prelude.Dicts.{Dict, lookup}
use hz.Time.{aware, hours}
use hz.SourceHealth.{
  SourceMetadata, SourceRunSummary, SourceHealthResponse, DataFamilyStatus, delivery_state,
  generation, interconnectors, fact_live, fact_stale, fact_summary, source_stale,
  build_source_health, to_source, rank, worst, is_naive, extreme, worse_of, stale, healthy, delayed,
}
use hz.SourceHealth.Facts.{IsWorst, IsExtreme, fact_summary-IsWorst}
use hz.SourceHealth.Sources.{IsTimed, StatusesOf, build_source_health_total}

boundaries :
    map (λ lag. delivery_state 300 (some lag)) (600 ∷ 601 ∷ 1199 ∷ 1200 ∷ [])
    ≡ healthy ∷ delayed ∷ delayed ∷ stale ∷ []
unfolding delivery_state
boundaries = refl

abbrev mix : DataFamilyStatus
mix = record {
  family = generation;
  fact_state = fact_live;
  observed_at = some (hours 10);
  valid_to = none;
  observation_age_seconds = some 60;
}

abbrev flows : DataFamilyStatus
flows = record {
  family = interconnectors;
  fact_state = fact_stale;
  observed_at = some (hours 8);
  valid_to = none;
  observation_age_seconds = some 7260;
}

mix_and_flows : fact_summary (mix ∷ flows ∷ []) true ≡ record {
  fact_state = source_stale;
  observed_at = some (hours 8);
  valid_to = none;
  fact_age = some 7260;
}
unfolding fact_summary worst worse_of extreme to_source rank
mix_and_flows = refl

fact_summary-IsWorst_example :
    ((t : DataFamilyStatus) × IsWorst t (mix ∷ flows ∷ [])
      × ((fact_summary (mix ∷ flows ∷ []) true).fact_state ≡ to_source t.fact_state))
    × IsExtreme
        (λ m n. m ≤ n)
        (fact_summary (mix ∷ flows ∷ []) true).observed_at
        (some (hours 10) ∷ some (hours 8) ∷ [])
    × IsExtreme (λ m n. m ≤ n) (fact_summary (mix ∷ flows ∷ []) true).valid_to (none ∷ none ∷ [])
    × IsExtreme
        (λ m n. n ≤ m)
        (fact_summary (mix ∷ flows ∷ []) true).fact_age
        (some 60 ∷ some 7260 ∷ [])
fact_summary-IsWorst_example = fact_summary-IsWorst mix (flows ∷ [])

abbrev fuel : SourceMetadata
fuel = record {
  id = "elexon.fuelinst";
  provider = "Elexon";
  dataset = "FUELINST";
  display_name = "Elexon";
  documentation_url = none;
  licence_url = none;
  attribution = none;
  expected_cadence_seconds = 300;
  active = true;
}

abbrev retired : SourceMetadata
retired = record fuel { id = "elexon.old"; active = false }

abbrev runs : Dict String SourceRunSummary
runs =
    (
      "elexon.fuelinst",
      record {
        last_attempted_at = some (aware (hours 11));
        last_attempt_state = some "succeeded";
        last_succeeded_at = some (aware (hours 11));
      },
    )
    ∷ []

runs-IsTimed : IsTimed (
    some (record {
      last_attempted_at = some (aware (hours 11));
      last_attempt_state = some "succeeded";
      last_succeeded_at = some (aware (hours 11));
    }))
unfolding is_naive
runs-IsTimed = (refl, refl)

build_source_health_total_example :
    (response : SourceHealthResponse) × (build_source_health
        (retired ∷ fuel ∷ [])
        runs
        (aware (hours 12))
        (some (mix ∷ flows ∷ []))
      ≡ ok response)
    × StatusesOf (hours 12) runs (fuel ∷ []) response.sources
    × (response.source_count ≡ length response.sources)
unfolding lookup is_naive
build_source_health_total_example =
    build_source_health_total (retired ∷ fuel ∷ []) runs (hours 12) (some (mix ∷ flows ∷ []))
      ((omega arith, runs-IsTimed), tt)
