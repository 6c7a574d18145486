-- ===== src/Game/Tests.antt =====
-- A registry of two connectors, readings of an evening, and the theorems about the resolution at them.
use hz.Prelude.{
  ℕ, ◌+◌, ◌*◌, ◌≡◌, ◌⊎◌, refl, Bool, true, false, Option, none, some, List, [], ◌∷◌, ◌++◌, leb, ok,
  err,
}
use hz.Prelude.Dicts.{lookup, insert}
use hz.Prelude.Sorting.{sorted, insert_sorted}
use hz.Prelude.Latest.{lex_lt, keep}
use hz.Prelude.Texts.{text_eq, distinct}
use hz.Time.{naive, aware, day_length}
use hz.Game.{
  naive_time, no_registry, importing, exporting, ConnectorRegistry, build_registry,
  connector_registry_for_date, newest_of, build_daily_game, prediction_definition_for_date,
  clock_time, DailyGame,
}
use hz.Game.Resolution.{
  Reading, Flows, PredictionResolution, resolved, build_prediction_resolution, resolve_in, Setting,
  reading_revision_key, keep_reading, grouped, coverage_of, check_resolution, is_eligible,
  positive_flow,
}
use hz.Game.Resolution.Evidence.{IsSupported, resolve_in-IsSupported}
use hz.Game.Resolution.Total.{build_prediction_resolution_errors}

-- a zone without an offset
abbrev at_local : ℕ → ℕ → ℕ
at_local day time = day * day_length + time

abbrev registry : ConnectorRegistry
registry = record {
  version = 1 ∷ [];
  effective_from = 0;
  expected_connector_ids = (7 ∷ []) ∷ (8 ∷ []) ∷ [];
}

registry_built :
    build_registry
      (λ t. t)
      (λ t. t)
      ((8 ∷ []) ∷ (7 ∷ []) ∷ [])
      (record registry { expected_connector_ids = (8 ∷ []) ∷ (7 ∷ []) ∷ (8 ∷ []) ∷ [] })
    ≡ ok registry
unfolding build_registry distinct sorted insert_sorted lex_lt text_eq
registry_built = refl

abbrev imports : Reading ℕ
imports = record {
  connector_id = 7 ∷ [];
  megawatts = 100;
  source_id = 1 ∷ [];
  source_record_id = none;
  observed_at = at_local 3 (clock_time 18 0);
  retrieved_at = at_local 3 (clock_time 18 2);
  revision = 0;
}

abbrev corrected : Reading ℕ
corrected = record imports { megawatts = 120; revision = 1 }

abbrev more : Reading ℕ
more = record imports { connector_id = 8 ∷ []; megawatts = 30 }

abbrev evening : List (Reading ℕ)
evening =
    corrected ∷ imports ∷ more ∷ record more { observed_at = at_local 3 (clock_time 18 1) } ∷ []

abbrev total : List ℕ → ℕ
total [] = 0
total (a ∷ rest) = a + total rest

abbrev whole : Flows ℕ
whole = record {
  is_finite = λ a. true;
  sum = total;
  round = λ a. a;
  is_near_balanced = λ a. leb a 50;
  is_positive = λ a. true;
  revision_key = λ source connector t n. connector ++ n ∷ [];
}

abbrev setting : Setting
setting = record {
  definition = record {
    day = 3;
    choices = importing ∷ exporting ∷ [];
    locks_at = at_local 3 (clock_time 17 45);
    resolves_from = at_local 3 (clock_time 17 55);
    resolves_to = at_local 3 (clock_time 18 5);
    rule_version = 1;
  };
  registry = registry;
  target_at = at_local 3 (clock_time 18 0);
  computed_at = at_local 3 (clock_time 19 0);
}

abbrev importing_evening : PredictionResolution ℕ
importing_evening = record {
  definition = setting.definition;
  registry = registry;
  target_at = at_local 3 (clock_time 18 0);
  state = resolved;
  outcome = some importing;
  observed_value_mw = some 150;
  observed_at = some (at_local 3 (clock_time 18 0));
  coverage = record { expected_connector_count = 2; observed_connector_count = 2; complete = true };
  source_ids = (1 ∷ []) ∷ [];
  source_record_ids = [];
  source_revision_keys = (7 ∷ 1 ∷ []) ∷ (8 ∷ 0 ∷ []) ∷ [];
  revision_watermark_at = some (at_local 3 (clock_time 18 2));
  computed_at = at_local 3 (clock_time 19 0);
  reason = positive_flow;
}

evening_resolved : resolve_in whole setting evening ≡ ok importing_evening
unfolding resolve_in is_eligible grouped keep_reading reading_revision_key coverage_of
    check_resolution lookup insert keep lex_lt text_eq distinct sorted insert_sorted
evening_resolved = refl

of_the_day :
    build_prediction_resolution whole at_local
      (registry ∷ [])
      3
      (aware (at_local 3 (clock_time 19 0)))
      evening
      none
    ≡ resolve_in whole setting evening
unfolding build_prediction_resolution connector_registry_for_date newest_of
    prediction_definition_for_date
of_the_day = refl

resolve_in-IsSupported_example : IsSupported whole setting evening importing_evening
resolve_in-IsSupported_example =
    resolve_in-IsSupported whole setting evening importing_evening evening_resolved refl

build_prediction_resolution_errors_example :
    ((res : PredictionResolution ℕ) × (build_prediction_resolution whole at_local [] 3
          (aware 5)
          evening
          none
        ≡ ok res))
    ⊎ ((build_prediction_resolution whole at_local [] 3 (aware 5) evening none ≡ err naive_time)
        × (aware 5 ≡ naive))
    ⊎ ((build_prediction_resolution whole at_local [] 3 (aware 5) evening none ≡ err no_registry)
        × (◌≡◌ {A = Option ConnectorRegistry} none none)
        × (◌≡◌ {A = List ConnectorRegistry} [] []))
build_prediction_resolution_errors_example =
    build_prediction_resolution_errors whole at_local [] 3 evening (aware 5) none

abbrev definition_of_day : ℕ → Bool → DailyGame
definition_of_day now fresh = build_daily_game at_local 3 now fresh false true

-- after the lock there is no prediction to make
locked : (definition_of_day (at_local 3 (clock_time 18 0)) true).prediction ≡ none
unfolding build_daily_game prediction_definition_for_date
locked = refl
