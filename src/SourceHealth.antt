-- ===== src/SourceHealth.antt =====
-- app/source_health/service.py, app/source_health/models.py: what the status of each source says about
-- its deliveries and its facts. Instants are microseconds and cadences are seconds; the table of
-- sources holds no cadence below 1.
pub mod Facts
pub mod Sources
mod Tests
use Prim.Native.String.{◌++◌ as text_append}
use hz.Prelude.{
  ℕ, ◌+◌, ◌-◌, ◌*◌, ◌/◌, min, max, String, Bool, true, false, ◌||◌, Option, none, some, List, [],
  ◌∷◌, map, filter, any, leb, ltb, str_eq, length, if◌then◌else◌, Result, ok, err, raise_if, ◌>>=◌,
  ◌>>◌,
}
use hz.Prelude.Dicts.{Dict, lookup}
use hz.Time.{Datetime, naive, aware, as_utc}

pub data SourceHealthError : Type 0 where
  naive_time invalid_field : SourceHealthError

pub data SourceDeliveryState : Type 0 where
  healthy delayed stale unavailable : SourceDeliveryState

-- app/api/models.py
pub data FactState : Type 0 where
  fact_live fact_delayed fact_stale fact_unavailable : FactState

pub data SourceFactState : Type 0 where
  source_live source_delayed source_stale source_unavailable source_not_applicable : SourceFactState

-- app/metrics/registry.py
pub data MetricFamily : Type 0 where
  generation demand frequency interconnectors carbon : MetricFamily

same_family : MetricFamily → MetricFamily → Bool
same_family generation generation = true
same_family demand demand = true
same_family frequency frequency = true
same_family interconnectors interconnectors = true
same_family carbon carbon = true
same_family _ _ = false

-- app/db/models.py: the columns that the status shows
pub record SourceMetadata : Type 0 where
  pub id : String
  pub provider : String
  pub dataset : String
  pub display_name : String
  pub documentation_url : Option String
  pub licence_url : Option String
  pub attribution : Option String
  pub expected_cadence_seconds : ℕ
  pub active : Bool

-- app/source_health/repository.py; the key of the dictionary is its source
pub record SourceRunSummary : Type 0 where
  pub last_attempted_at : Option Datetime
  pub last_attempt_state : Option String
  pub last_succeeded_at : Option Datetime

-- app/api/models.py: what the summary reads of it
pub record DataFamilyStatus : Type 0 where
  pub family : MetricFamily
  pub fact_state : FactState
  pub observed_at : Option ℕ
  pub valid_to : Option ℕ
  pub observation_age_seconds : Option ℕ

pub record SourceHealthStatus : Type 0 where
  pub source_id : String
  pub publisher : String
  pub dataset : String
  pub display_name : String
  pub documentation_url : Option String
  pub licence_url : Option String
  pub attribution : String
  pub expected_fact_cadence_seconds : ℕ
  pub delivery_state : SourceDeliveryState
  pub delivery_lag_seconds : Option ℕ
  pub last_attempted_at : Option Datetime
  pub last_attempt_state : Option String
  pub last_succeeded_at : Option Datetime
  pub fact_state : SourceFactState
  pub fact_families : List MetricFamily
  pub observed_at : Option ℕ
  pub valid_to : Option ℕ
  pub fact_age_seconds : Option ℕ
  pub note : String

pub record SourceHealthResponse : Type 0 where
  pub evaluated_at : ℕ
  pub source_count : ℕ
  pub sources : List SourceHealthStatus

abbrev pub current_source_families : Dict String (List MetricFamily)
current_source_families =
    ("elexon.fuelinst", generation ∷ interconnectors ∷ [])
    ∷ ("elexon.indo", demand ∷ [])
    ∷ ("elexon.freq", frequency ∷ [])
    ∷ ("neso.carbon-intensity-national", carbon ∷ [])
    ∷ []

-- `_delivery_state`
pub delivery_state : ℕ → Option ℕ → SourceDeliveryState
delivery_state cadence none = unavailable
delivery_state cadence (some lag) =
    if leb lag (max (cadence * 2) 60)
    then healthy
    else if ltb lag (max (cadence * 4) 300)
    then delayed
    else stale

-- `_age`; an instant in the future is of age 0. The code's float of seconds is exact up to 2^53
-- microseconds.
age : ℕ → Datetime → Result SourceHealthError ℕ
age evaluated_at value = do t ← as_utc naive_time value; ok ((evaluated_at - t) / 1000000)

unfoldable pub rank : FactState → ℕ
rank fact_live = 0
rank fact_delayed = 1
rank fact_stale = 2
rank fact_unavailable = 3

-- `SourceFactState(state.value)`
unfoldable pub to_source : FactState → SourceFactState
to_source fact_live = source_live
to_source fact_delayed = source_delayed
to_source fact_stale = source_stale
to_source fact_unavailable = source_unavailable

-- of two statuses the one of higher rank, the earlier one on a tie
worse_of : DataFamilyStatus → DataFamilyStatus → DataFamilyStatus
worse_of s t = if ltb (rank s.fact_state) (rank t.fact_state) then t else s

-- `max(statuses, key=…)`, from the first status on
pub worst : DataFamilyStatus → List DataFamilyStatus → DataFamilyStatus
worst s [] = s
worst s (t ∷ ts) = worst (worse_of s t) ts

merge : (ℕ → ℕ → ℕ) → Option ℕ → Option ℕ → Option ℕ
merge pick none y = y
merge pick (some x) none = some x
merge pick (some x) (some y) = some (pick x y)

-- `min(…, default=None)` and `max(…, default=None)` of the values that are not `None`
pub extreme : (ℕ → ℕ → ℕ) → List (Option ℕ) → Option ℕ
unfolding merge
extreme pick [] = none
extreme pick (x ∷ xs) = merge pick x (extreme pick xs)

pub record FactSummary : Type 0 where
  pub fact_state : SourceFactState
  pub observed_at : Option ℕ
  pub valid_to : Option ℕ
  pub fact_age : Option ℕ

-- `_fact_summary`
pub fact_summary : List DataFamilyStatus → Bool → FactSummary
unfolding worst extreme to_source
fact_summary statuses false = record {
  fact_state = source_not_applicable;
  observed_at = none;
  valid_to = none;
  fact_age = none;
}
fact_summary [] true = record {
  fact_state = source_unavailable;
  observed_at = none;
  valid_to = none;
  fact_age = none;
}
fact_summary (s ∷ ss) true = record {
  fact_state = to_source (worst s ss).fact_state;
  observed_at = extreme min (map (λ t. t.observed_at) (s ∷ ss));
  valid_to = extreme min (map (λ t. t.valid_to) (s ∷ ss));
  fact_age = extreme max (map (λ t. t.observation_age_seconds) (s ∷ ss));
}

or_nil : Option (List MetricFamily) → List MetricFamily
or_nil none = []
or_nil (some fs) = fs

non_empty : List MetricFamily → Bool
non_empty [] = false
non_empty (f ∷ fs) = true

attribution_of : Option String → String → String
attribution_of none name = text_append (text_append "Data supplied by " name) "."
attribution_of (some a) name =
    if str_eq a "" then text_append (text_append "Data supplied by " name) "." else a

succeeded_at : Option SourceRunSummary → Option Datetime
succeeded_at none = none
succeeded_at (some run) = run.last_succeeded_at

attempted_at : Option SourceRunSummary → Option Datetime
attempted_at none = none
attempted_at (some run) = run.last_attempted_at

attempt_state : Option SourceRunSummary → Option String
attempt_state none = none
attempt_state (some run) = run.last_attempt_state

-- `_age(evaluated_at, last_succeeded) if last_succeeded is not None else None`
lag_of : ℕ → Option Datetime → Result SourceHealthError (Option ℕ)
unfolding age
lag_of evaluated_at none = ok none
lag_of evaluated_at (some t) = do lag ← age evaluated_at t; ok (some lag)

unfoldable pub is_naive : Option Datetime → Bool
is_naive (some naive) = true
is_naive _ = false

-- `SourceHealthStatus(…)`: the constraints of its fields
check_status : SourceHealthStatus → Result SourceHealthError SourceHealthStatus
unfolding is_naive
check_status s = do
  raise_if
      (leb s.expected_fact_cadence_seconds 0
        || is_naive s.last_attempted_at
        || is_naive s.last_succeeded_at)
      invalid_field
  ok s

families_of : String → List MetricFamily
unfolding or_nil lookup
families_of id = or_nil (lookup str_eq id current_source_families)

note_of : Bool → String
note_of true = "Delivery health and present-fact validity are evaluated separately."
note_of false = "This source does not directly supply a fact in the current grid view."

relevant_to : List MetricFamily → List DataFamilyStatus → List DataFamilyStatus
unfolding same_family
relevant_to families statuses = filter (λ s. any (same_family s.family) families) statuses

-- `_present_source`
pub present_source :
    SourceMetadata
    → Option SourceRunSummary
    → ℕ
    → List DataFamilyStatus
    → Result SourceHealthError SourceHealthStatus
unfolding lag_of relevant_to families_of non_empty check_status note_of
present_source source run evaluated_at statuses = do
  lag ← lag_of evaluated_at (succeeded_at run)
  let families = families_of source.id
  let summary = fact_summary (relevant_to families statuses) (non_empty families)
  check_status (record {
    source_id = source.id;
    publisher = source.provider;
    dataset = source.dataset;
    display_name = source.display_name;
    documentation_url = source.documentation_url;
    licence_url = source.licence_url;
    attribution = attribution_of source.attribution source.display_name;
    expected_fact_cadence_seconds = source.expected_cadence_seconds;
    delivery_state = delivery_state source.expected_cadence_seconds lag;
    delivery_lag_seconds = lag;
    last_attempted_at = attempted_at run;
    last_attempt_state = attempt_state run;
    last_succeeded_at = succeeded_at run;
    fact_state = summary.fact_state;
    fact_families = families;
    observed_at = summary.observed_at;
    valid_to = summary.valid_to;
    fact_age_seconds = summary.fact_age;
    note = note_of (non_empty families);
  })

-- the list comprehension, over the active sources
pub present_all :
    List SourceMetadata
    → Dict String SourceRunSummary
    → ℕ
    → List DataFamilyStatus
    → Result SourceHealthError (List SourceHealthStatus)
unfolding present_source
present_all [] runs evaluated_at statuses = ok []
present_all (source ∷ rest) runs evaluated_at statuses = do
  status ← present_source source (lookup str_eq source.id runs) evaluated_at statuses
  later ← present_all rest runs evaluated_at statuses
  ok (status ∷ later)

-- `current_fact_statuses or []`
given : Option (List DataFamilyStatus) → List DataFamilyStatus
given none = []
given (some l) = l

pub build_source_health :
    List SourceMetadata
    → Dict String SourceRunSummary
    → Datetime
    → Option (List DataFamilyStatus)
    → Result SourceHealthError SourceHealthResponse
unfolding present_all given
build_source_health sources runs evaluated_at statuses = do
  instant ← as_utc naive_time evaluated_at
  presented ← present_all (filter (λ s. s.active) sources) runs instant (given statuses)
  ok (record { evaluated_at = instant; source_count = length presented; sources = presented })
