-- ===== src/Game.antt =====
-- app/game/models.py, app/game/service.py and app/game/connectors.py: the daily game and the registry
-- of connectors. Europe/London is the parameter `at_local`, which gives the instant at which the wall
-- clock of a date shows a time, and texts are the characters' codes.
pub mod Resolution
mod Tests
use hz.Prelude.{
  ℕ, ◌+◌, ◌*◌, ◌≡◌, Bool, true, false, ◌&&◌, ◌||◌, not, Option, none, some, List, [], ◌∷◌, ◌++◌,
  map, filter, any, leb, ltb, ◌==◌, if◌then◌else◌, Result, ok, err, raise_if, ◌>>=◌, ◌>>◌,
}
use hz.Prelude.Texts.{Text, text_eq, elem, distinct, sorted_texts}
use hz.Time.{Datetime, as_utc, minutes}

pub data GameError : Type 0 where
  naive_time no_registry blank_version empty_registry unknown_connector : GameError
  invalid_coverage invalid_resolution empty_sequence : GameError

pub data MissionKind : Type 0 where
  find_clean_window identify_largest_source inspect_interconnector open_event_evidence : MissionKind

-- why a mission is not available
pub data Unavailable : Type 0 where
  data_stale forecast_unavailable no_qualifying_event : Unavailable

pub record MissionDefinition : Type 0 where
  pub day : ℕ
  pub kind : MissionKind
  pub available : Bool
  pub unavailable_reason : Option Unavailable

pub data PredictionChoice : Type 0 where
  importing exporting : PredictionChoice

-- The texts of a definition are fixed but for the day in its identifier.
pub record PredictionDefinition : Type 0 where
  pub day : ℕ
  pub choices : List PredictionChoice
  pub locks_at : ℕ
  pub resolves_from : ℕ
  pub resolves_to : ℕ
  pub rule_version : ℕ

pub record DailyGame : Type 0 where
  pub day : ℕ
  pub missions : List MissionDefinition
  pub prediction : Option PredictionDefinition
  pub source_fresh : Bool

-- the times of a day, as microseconds after midnight
abbrev pub clock_time : ℕ → ℕ → ℕ
clock_time hour minute = minutes (hour * 60 + minute)

module _ (at_local : ℕ → ℕ → ℕ) where
  unfoldable pub prediction_definition_for_date : ℕ → PredictionDefinition
  prediction_definition_for_date day = record {
    day = day;
    choices = importing ∷ exporting ∷ [];
    locks_at = at_local day (clock_time 17 45);
    resolves_from = at_local day (clock_time 17 55);
    resolves_to = at_local day (clock_time 18 5);
    rule_version = 1;
  }

  -- `None`, or the first reason that applies
  reason_or : Bool → Bool → Unavailable → Option Unavailable
  reason_or false has reason = some data_stale
  reason_or true false reason = some reason
  reason_or true true reason = none

  open_prediction : Bool → PredictionDefinition → Option PredictionDefinition
  open_prediction true definition = some definition
  open_prediction false definition = none

  -- `build_daily_game`; `day` is the local date of `now`. The code compares the wall clock with 17:45
  -- of the same day, by when no clock changes, so that the instants compare alike.
  unfoldable pub build_daily_game : ℕ → ℕ → Bool → Bool → Bool → DailyGame
  unfolding reason_or open_prediction
  build_daily_game day now source_fresh has_forecast has_events =
      let definition = prediction_definition_for_date day in
      record {
        day = day;
        missions =
            record {
              day = day;
              kind = find_clean_window;
              available = source_fresh && has_forecast;
              unavailable_reason = reason_or source_fresh has_forecast forecast_unavailable;
            }
            ∷ record {
              day = day;
              kind = identify_largest_source;
              available = source_fresh;
              unavailable_reason = reason_or source_fresh true data_stale;
            }
            ∷ record {
              day = day;
              kind = open_event_evidence;
              available = source_fresh && has_events;
              unavailable_reason = reason_or source_fresh has_events no_qualifying_event;
            }
            ∷ [];
        prediction = open_prediction (source_fresh && ltb now definition.locks_at) definition;
        source_fresh = source_fresh;
      }

-- app/game/connectors.py

pub record ConnectorRegistry : Type 0 where
  pub version : Text
  pub effective_from : ℕ
  pub expected_connector_ids : List Text

is_empty : {A : Type 0} → List A → Bool
is_empty [] = true
is_empty (x ∷ xs) = false

-- `ConnectorRegistry(…)` with its `__post_init__`; `strip` and `upper` are the methods of texts, and
-- `names` are the keys of `INTERCONNECTOR_NAMES`.
unfoldable pub build_registry :
    (Text → Text)
    → (Text → Text)
    → List Text
    → ConnectorRegistry
    → Result GameError ConnectorRegistry
unfolding is_empty
build_registry strip upper names registry = do
  raise_if (is_empty (strip registry.version)) blank_version
  let normalized =
      sorted_texts (distinct (map (λ code. upper (strip code)) registry.expected_connector_ids))
  raise_if (is_empty normalized) empty_registry
  raise_if (any (λ code. not (elem code names)) normalized) unknown_connector
  ok (record registry { expected_connector_ids = normalized })

-- `max(applicable, key=…)`, from the first registry on
newest : ConnectorRegistry → List ConnectorRegistry → ConnectorRegistry
newest r [] = r
newest r (s ∷ rest) = newest (if ltb r.effective_from s.effective_from then s else r) rest

unfoldable pub newest_of : List ConnectorRegistry → Result GameError ConnectorRegistry
unfolding newest
newest_of [] = err no_registry
newest_of (r ∷ rest) = ok (newest r rest)

-- `connector_registry_for_date` over the registries
unfoldable pub connector_registry_for_date :
    List ConnectorRegistry → ℕ → Result GameError ConnectorRegistry
unfolding newest_of
connector_registry_for_date registries day =
    newest_of (filter (λ r. leb r.effective_from day) registries)
