-- ===== src/Game/Resolution.antt =====
-- app/game/resolution.py: how a prediction is resolved from the readings of the connectors. Readings
-- come from columns with a time zone, so their times are instants. Floats are the parameter `Flows`.
pub mod Groups
pub mod Snapshots
pub mod Evidence
pub mod Total
use hz.Prelude.{
  ℕ, zero, suc, ◌+◌, ◌-◌, ◌≡◌, Bool, true, false, ◌&&◌, ◌||◌, not, Option, none, some, is_some,
  List, [], ◌∷◌, ◌++◌, map, filter, length, leb, ltb, ◌==◌, max, if◌then◌else◌, Result, ok, err,
  raise_if, ◌>>=◌, ◌>>◌,
}
use hz.Prelude.Dicts.{Dict, values, lookup, insert}
use hz.Prelude.Latest.{lex_lt, keep}
use hz.Prelude.Texts.{Text, text_eq, elem, distinct, sorted_texts}
use hz.Time.{Datetime, as_utc}
use hz.Game.{
  GameError, naive_time, invalid_coverage, invalid_resolution, empty_sequence, PredictionChoice,
  importing, exporting, PredictionDefinition, prediction_definition_for_date, ConnectorRegistry,
  connector_registry_for_date, clock_time,
}

pub data PredictionResolutionState : Type 0 where
  pending resolved void : PredictionResolutionState

-- `PredictionOutcome` has the two values of a choice.
abbrev pub PredictionOutcome : Type 0
PredictionOutcome = PredictionChoice

-- `InterconnectorRead` and its provenance, as far as the resolution reads them
pub record Reading (F : Type 0) : Type 0 where
  pub connector_id : Text
  pub megawatts : F
  pub source_id : Text
  pub source_record_id : Option Text
  pub observed_at : ℕ
  pub retrieved_at : ℕ
  pub revision : ℕ

-- What the resolution uses of floats, and of the texts of numbers and times.
pub record Flows (F : Type 0) : Type 0 where
  pub is_finite : F → Bool
  -- `sum(…)` and `round(…, 3)`
  pub sum : List F → F
  pub round : F → F
  -- `abs(net_flow) <= 50.0` and `net_flow > 0`
  pub is_near_balanced : F → Bool
  pub is_positive : F → Bool
  -- the text of a source revision: its source, connector, time and revision
  pub revision_key : Text → Text → ℕ → ℕ → Text

pub record Coverage : Type 0 where
  pub expected_connector_count : ℕ
  pub observed_connector_count : ℕ
  pub complete : Bool

-- why a prediction is as it is
pub data Reason : Type 0 where
  window_not_closed no_observations incomplete_snapshot near_balanced : Reason
  positive_flow negative_flow : Reason

pub record PredictionResolution (F : Type 0) : Type 0 where
  pub definition : PredictionDefinition
  pub registry : ConnectorRegistry
  pub target_at : ℕ
  pub state : PredictionResolutionState
  pub outcome : Option PredictionOutcome
  pub observed_value_mw : Option F
  pub observed_at : Option ℕ
  pub coverage : Coverage
  pub source_ids : List Text
  pub source_record_ids : List Text
  pub source_revision_keys : List Text
  pub revision_watermark_at : Option ℕ
  pub computed_at : ℕ
  pub reason : Reason

-- `_coverage`, and the validator of its model
check_coverage : Coverage → Result GameError Coverage
check_coverage c = do
  raise_if (ltb c.expected_connector_count c.observed_connector_count) invalid_coverage
  ok c

unfoldable pub coverage_of : ℕ → ℕ → Result GameError Coverage
unfolding check_coverage
coverage_of expected observed = check_coverage (record {
  expected_connector_count = expected;
  observed_connector_count = observed;
  complete = ltb 0 expected && (observed == expected);
})

-- the tests of `state_matches_evidence` on a first result
consistent : PredictionResolutionState → Bool → Bool → Bool → Bool → Bool
consistent pending outcome value time complete = not (outcome || value)
consistent resolved outcome value time complete = outcome && value && time && complete
consistent void outcome value time complete = not outcome

unfoldable pub check_resolution :
    {F : Type 0} → PredictionResolution F → Result GameError (PredictionResolution F)
unfolding consistent
check_resolution r = do
  raise_if
      (not (
        consistent r.state (is_some r.outcome) (is_some r.observed_value_mw) (is_some r.observed_at)
          r.coverage.complete))
      invalid_resolution
  ok r

or_empty : Option Text → Text
or_empty none = []
or_empty (some t) = t

-- An observed time and a source.
abbrev pub Snapshot : Type 0
Snapshot = ℕ × Text

abbrev pub same_snapshot : Snapshot → Snapshot → Bool
same_snapshot (t, s) (u, r) = (t == u) && text_eq s r

-- `abs((a - b).total_seconds())`
abbrev distance : ℕ → ℕ → ℕ
distance a b = (a - b) + (b - a)

module _ {F : Type 0} where
  -- `_reading_revision_key`: the text comes last, so its characters extend the tuple.
  unfoldable pub reading_revision_key : Reading F → List ℕ
  unfolding or_empty
  reading_revision_key r = r.revision ∷ r.retrieved_at ∷ or_empty r.source_record_id

  abbrev pub snapshot_of : Reading F → Snapshot
  snapshot_of r = (r.observed_at, r.source_id)

  -- `defaultdict(dict)[key]`
  abbrev pub or_new : Option (Dict Text (Reading F)) → Dict Text (Reading F)
  or_new none = []
  or_new (some d) = d

  -- the body of the loop over the eligible readings, in the dictionary of one snapshot
  unfoldable pub keep_reading : Reading F → Dict Text (Reading F) → Dict Text (Reading F)
  keep_reading r d =
      keep text_eq (λ x. x.connector_id) reading_revision_key (lookup text_eq r.connector_id d) r d

  unfoldable pub grouped :
      List (Reading F)
      → Dict Snapshot (Dict Text (Reading F))
      → Dict Snapshot (Dict Text (Reading F))
  grouped [] d = d
  grouped (r ∷ rest) d = grouped rest (
      insert same_snapshot (snapshot_of r)
        (keep_reading r (or_new (lookup same_snapshot (snapshot_of r) d))) d)

  -- `<` on the keys of the `min`: more connectors, nearer, later, the smaller source
  pub group_before : ℕ → Snapshot × Dict Text (Reading F) → Snapshot × Dict Text (Reading F) → Bool
  group_before target ((t, s), d) ((u, r), e) =
      if length d == length e
      then (if distance t target == distance u target
          then (if t == u then lex_lt s r else ltb u t)
          else ltb (distance t target) (distance u target))
      else ltb (length e) (length d)

  pub best_group :
      ℕ
      → Snapshot × Dict Text (Reading F)
      → List (Snapshot × Dict Text (Reading F))
      → Snapshot × Dict Text (Reading F)
  unfolding group_before
  best_group target best [] = best
  best_group target best (g ∷ gs) =
      best_group target (if group_before target g best then g else best) gs

  -- `tuple(best_readings[key] for key in sorted(best_readings))`
  readings_of : List Text → Dict Text (Reading F) → List (Reading F)
  readings_of [] d = []
  readings_of (k ∷ ks) d = elim (lookup text_eq k d) [
    | none ↦ readings_of ks d
    | some r ↦ r ∷ readings_of ks d
  ]

  pub chosen_of : Dict Text (Reading F) → List (Reading F)
  unfolding readings_of
  chosen_of d = readings_of (sorted_texts (map (λ x. x.0) d)) d

  -- the record identifiers that are not empty
  record_ids : List (Reading F) → List Text
  unfolding or_empty
  record_ids rs = filter (λ t. not (text_eq t [])) (map (λ r. or_empty r.source_record_id) rs)

  latest_retrieval : List (Reading F) → Option ℕ
  latest_retrieval [] = none
  latest_retrieval (r ∷ rest) = elim (latest_retrieval rest) [
    | none ↦ some r.retrieved_at
    | some t ↦ some (max r.retrieved_at t)
  ]

-- What `_resolution` is given of a day: its definition, registry, target and time of computation.
pub record Setting : Type 0 where
  pub definition : PredictionDefinition
  pub registry : ConnectorRegistry
  pub target_at : ℕ
  pub computed_at : ℕ

module _ {F : Type 0} (flows : Flows F) where
  -- `expected_connectors`
  abbrev pub expected_of : Setting → List Text
  expected_of setting = distinct setting.registry.expected_connector_ids

  -- `_resolution(…)` without evidence
  without_evidence :
      Setting
      → PredictionResolutionState
      → Coverage
      → Reason
      → Result GameError (PredictionResolution F)
  without_evidence setting state coverage reason = check_resolution (record {
    definition = setting.definition;
    registry = setting.registry;
    target_at = setting.target_at;
    state = state;
    outcome = none;
    observed_value_mw = none;
    observed_at = none;
    coverage = coverage;
    source_ids = [];
    source_record_ids = [];
    source_revision_keys = [];
    revision_watermark_at = none;
    computed_at = setting.computed_at;
    reason = reason;
  })

  -- `_resolution(**common, …)` of the chosen readings
  with_evidence :
      Setting
      → Coverage
      → Snapshot
      → List (Reading F)
      → PredictionResolutionState
      → Option PredictionOutcome
      → Reason
      → Result GameError (PredictionResolution F)
  unfolding record_ids latest_retrieval
  with_evidence setting coverage (observed_at, source_id) chosen state outcome reason =
      check_resolution (record {
        definition = setting.definition;
        registry = setting.registry;
        target_at = setting.target_at;
        state = state;
        outcome = outcome;
        observed_value_mw = some (flows.round (flows.sum (map (λ r. r.megawatts) chosen)));
        observed_at = some observed_at;
        coverage = coverage;
        source_ids = source_id ∷ [];
        source_record_ids = sorted_texts (distinct (record_ids chosen));
        source_revision_keys = sorted_texts (
            map (λ r. flows.revision_key r.source_id r.connector_id r.observed_at r.revision)
              chosen);
        revision_watermark_at = latest_retrieval chosen;
        computed_at = setting.computed_at;
        reason = reason;
      })

  -- from `if abs(net_flow) <= …` on
  decide :
      Setting → Coverage → Snapshot → List (Reading F) → Result GameError (PredictionResolution F)
  unfolding with_evidence
  decide setting coverage snapshot chosen =
      let net_flow = flows.sum (map (λ r. r.megawatts) chosen) in
      if flows.is_near_balanced net_flow
      then with_evidence setting coverage snapshot chosen void none near_balanced
      else if flows.is_positive net_flow
      then with_evidence setting coverage snapshot chosen resolved (some importing) positive_flow
      else with_evidence setting coverage snapshot chosen resolved (some exporting) negative_flow

  after_best :
      Setting → Snapshot × Dict Text (Reading F) → Result GameError (PredictionResolution F)
  unfolding decide without_evidence chosen_of
  after_best setting (snapshot, readings) = do
    coverage ← coverage_of (length (expected_of setting)) (length readings)
    if coverage.complete
        then decide setting coverage snapshot (chosen_of readings)
        else without_evidence setting void coverage incomplete_snapshot

  -- the `min` over the groups; there is one, because there is a reading
  after_groups :
      Setting → List (Snapshot × Dict Text (Reading F)) → Result GameError (PredictionResolution F)
  unfolding after_best best_group
  after_groups setting [] = err empty_sequence
  after_groups setting (g ∷ gs) = after_best setting (best_group setting.target_at g gs)

  unfoldable pub is_eligible : Setting → Reading F → Bool
  is_eligible setting r =
      leb setting.definition.resolves_from r.observed_at
      && leb r.observed_at setting.definition.resolves_to
      && elem r.connector_id (expected_of setting)
      && flows.is_finite r.megawatts

  -- what follows when the evidence window has closed, of the eligible readings
  closed_window : Setting → List (Reading F) → Result GameError (PredictionResolution F)
  unfolding after_groups without_evidence
  closed_window setting [] = do
    coverage ← coverage_of (length (expected_of setting)) 0
    without_evidence setting void coverage no_observations
  closed_window setting (r ∷ rest) = after_groups setting (grouped (r ∷ rest) [])

  open_window : Setting → Result GameError (PredictionResolution F)
  unfolding without_evidence
  open_window setting = do
    coverage ← coverage_of (length (expected_of setting)) 0
    without_evidence setting pending coverage window_not_closed

  unfoldable pub resolve_in : Setting → List (Reading F) → Result GameError (PredictionResolution F)
  unfolding closed_window open_window
  resolve_in setting interconnectors =
      if ltb setting.computed_at setting.definition.resolves_to
      then open_window setting
      else closed_window setting (filter (is_eligible setting) interconnectors)

  -- `connector_registry or connector_registry_for_date(day)`
  registry_or :
      Option ConnectorRegistry → List ConnectorRegistry → ℕ → Result GameError ConnectorRegistry
  registry_or (some registry) registries day = ok registry
  registry_or none registries day = connector_registry_for_date registries day

  unfoldable pub build_prediction_resolution :
      (ℕ → ℕ → ℕ)
      → List ConnectorRegistry
      → ℕ
      → Datetime
      → List (Reading F)
      → Option ConnectorRegistry
      → Result GameError (PredictionResolution F)
  unfolding registry_or
  build_prediction_resolution at_local registries day as_of interconnectors connector_registry = do
    instant ← as_utc naive_time as_of
    registry ← registry_or connector_registry registries day
    resolve_in
        (record {
          definition = prediction_definition_for_date at_local day;
          registry = registry;
          target_at = at_local day (clock_time 18 0);
          computed_at = instant;
        })
        interconnectors
