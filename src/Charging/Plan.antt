-- ===== src/Charging/Plan.antt =====
-- app/charging/planner.py: `plan_flexible_use`. Instants stay so far below the end of year 9999 that
-- no sum of an instant and the duration or a half-hour overflows. What the models check of their
-- fields holds of what is put in them.
pub mod Choice
mod Tests
use hz.Prelude.{
  ℕ, zero, suc, ◌+◌, ◌-◌, ◌*◌, ◌/◌, String, Bool, true, false, ◌&&◌, not, Option, none, some, List,
  [], ◌∷◌, ◌++◌, map, filter, any, leb, ltb, ◌==◌, str_eq, if◌then◌else◌, length, Result, ok, err,
  raise_if, ◌>>=◌, ◌>>◌,
}
use hz.Prelude.Dicts.{Dict, lookup}
use hz.Time.{Datetime, naive, aware, as_utc, minus, half_hour, minutes}
use hz.Charging.{
  Arithmetic, PreparedPoint, ChargingWindow, CalculatedWindow, PlanningError, not_continuous,
  naive_time, bounds_reversed, bounds_off_boundary, instant_overflow, duration_checked,
  is_half_hour_boundary, prepare_points, by_start, window_at,
}

-- Its `fact_class` has one value.
pub record CarbonForecastSeries (F : Type 0) : Type 0 where
  pub series_id : String
  pub geography : String
  pub source_id : String
  pub methodology_version : String
  pub vintage_at : Option ℕ
  pub points : List (PreparedPoint F)

pub data SeriesField : Type 0 where
  series_id geography source_id methodology_version vintage_at : SeriesField

pub data FlexibleUseStatus : Type 0 where
  lower_carbon_window no_meaningful_difference window_found insufficient_coverage :
      FlexibleUseStatus

pub data StartNowComparisonStatus : Type 0 where
  compatible incompatible_series insufficient_comparison : StartNowComparisonStatus

pub record ForecastCoverage (F : Type 0) : Type 0 where
  pub required_interval_count : ℕ
  pub expected_interval_count : ℕ
  pub available_interval_count : ℕ
  pub coverage_fraction : F
  pub gap_starts : List ℕ
  pub candidate_start_count : ℕ
  pub complete_candidate_count : ℕ

pub record FlexibleUseComparison (F : Type 0) : Type 0 where
  pub status : StartNowComparisonStatus
  pub start_now_window : Option (ChargingWindow F)
  pub incompatibility_fields : List SeriesField
  pub delta : Option F
  pub percent_lower : Option F
  pub is_meaningful : Option Bool

-- The summary is a sentence for the status.
pub record FlexibleUsePlan (F : Type 0) : Type 0 where
  pub status : FlexibleUseStatus
  pub requested_duration_minutes : ℕ
  pub earliest_start : ℕ
  pub latest_finish : ℕ
  pub recommended_window : Option (ChargingWindow F)
  pub coverage : ForecastCoverage F
  pub comparison : FlexibleUseComparison F

pub record Request : Type 0 where
  pub duration : ℕ
  pub earliest_start : Datetime
  pub latest_finish : Datetime
  pub start_now : Datetime
  pub continuous : Bool

-- `_steps` and `_steps_inclusive`, one round for each unit of fuel
pub steps : ℕ → ℕ → ℕ → List ℕ
steps zero cursor end = []
steps (suc fuel) cursor end =
    let rest = steps fuel (cursor + half_hour) end in if ltb cursor end then cursor ∷ rest else []

pub steps_inclusive : ℕ → ℕ → ℕ → List ℕ
steps_inclusive zero cursor end = []
steps_inclusive (suc fuel) cursor end =
    let rest = steps_inclusive fuel (cursor + half_hour) end in
    if leb cursor end then cursor ∷ rest else []

-- A round moves the cursor by half an hour.
abbrev pub rounds : ℕ → ℕ → ℕ
rounds start end = suc ((end - start) / half_hour + 1)

same_instant : Option ℕ → Option ℕ → Bool
same_instant none none = true
same_instant (some s) (some t) = s == t
same_instant _ _ = false

-- the field's name, if the values differ
unless : Bool → SeriesField → List SeriesField
unless true field = []
unless false field = field ∷ []

module _ {F : Type 0} where
  -- `_compatibility_mismatches`
  pub compatibility_mismatches : CarbonForecastSeries F → CarbonForecastSeries F → List SeriesField
  unfolding unless same_instant
  compatibility_mismatches left right =
      unless (str_eq left.series_id right.series_id) series_id
      ++ unless (str_eq left.geography right.geography) geography
      ++ unless (str_eq left.source_id right.source_id) source_id
      ++ unless (str_eq left.methodology_version right.methodology_version) methodology_version
      ++ unless (same_instant left.vintage_at right.vintage_at) vintage_at

  abbrev bare : StartNowComparisonStatus → List SeriesField → FlexibleUseComparison F
  bare status mismatches = record {
    status = status;
    start_now_window = none;
    incompatibility_fields = mismatches;
    delta = none;
    percent_lower = none;
    is_meaningful = none;
  }

  -- `_comparison_without_recommendation`, of the mismatches
  comparison_without : List SeriesField → FlexibleUseComparison F
  comparison_without [] = bare insufficient_comparison []
  comparison_without (m ∷ ms) = bare incompatible_series (m ∷ ms)

  -- the value of a search, whose fuel suffices
  settled : Option (Option (CalculatedWindow F)) → Option (CalculatedWindow F)
  settled none = none
  settled (some w) = w

  collect : Option (CalculatedWindow F) → List (CalculatedWindow F) → List (CalculatedWindow F)
  collect none ws = ws
  collect (some w) ws = w ∷ ws

  missing_in : Dict ℕ (PreparedPoint F) → ℕ → Bool
  missing_in points start = elim (lookup ◌==◌ start points) [ none ↦ true | some p ↦ false ]

module _ {F : Type 0} (arithmetic : Arithmetic F) where
  window_in : List (PreparedPoint F) → ℕ → ℕ → Option (CalculatedWindow F)
  unfolding settled
  window_in prepared start duration =
      settled
        (window_at arithmetic (by_start [] prepared) (map (λ p. p.start) prepared) start duration)

  -- the candidates that are complete
  pub calculated_candidates : List (PreparedPoint F) → ℕ → List ℕ → List (CalculatedWindow F)
  unfolding collect window_in
  calculated_candidates prepared duration [] = []
  calculated_candidates prepared duration (start ∷ rest) =
      collect (window_in prepared start duration) (calculated_candidates prepared duration rest)

  -- the order of the keys of `min`
  unfoldable pub precedes : CalculatedWindow F → CalculatedWindow F → Bool
  precedes v w =
      if arithmetic.equal v.raw_average w.raw_average
      then ltb v.public.start w.public.start
      else arithmetic.less v.raw_average w.raw_average

  better : CalculatedWindow F → CalculatedWindow F → CalculatedWindow F
  better best w = if precedes w best then w else best

  -- `min(calculated_candidates, key=…)`, from the first candidate on
  pub recommended : CalculatedWindow F → List (CalculatedWindow F) → CalculatedWindow F
  unfolding better
  recommended best [] = best
  recommended best (w ∷ ws) = recommended (better best w) ws

  percent_of : F → F → Option F
  percent_of delta average =
      if arithmetic.less arithmetic.zero_float average
      then some (arithmetic.multiply (arithmetic.divide delta average) arithmetic.hundred)
      else none

  meaningful : F → Option F → Bool
  meaningful delta none = false
  meaningful delta (some percent) =
      not (arithmetic.less delta arithmetic.meaningful_delta)
      && not (arithmetic.less percent arithmetic.meaningful_percent)

  rounded : Option F → Option F
  rounded none = none
  rounded (some a) = some (arithmetic.round a)

  -- the rest of `_compare_start_now`, of its window and the mismatches
  compare_window :
      CalculatedWindow F → Option (CalculatedWindow F) → List SeriesField → FlexibleUseComparison F
  unfolding meaningful rounded percent_of
  compare_window best none mismatches = bare insufficient_comparison []
  compare_window best (some w) (m ∷ ms) = record (bare incompatible_series (m ∷ ms)) {
    start_now_window = some w.public;
  }
  compare_window best (some w) [] =
      let delta = arithmetic.subtract w.raw_average best.raw_average in
      let percent = percent_of delta w.raw_average in
      record {
        status = compatible;
        start_now_window = some w.public;
        incompatibility_fields = [];
        delta = some (arithmetic.round delta);
        percent_lower = rounded percent;
        is_meaningful = some (meaningful delta percent);
      }

  -- `_compare_start_now`
  compare_start_now :
      CalculatedWindow F
      → CarbonForecastSeries F
      → CarbonForecastSeries F
      → ℕ
      → ℕ
      → Result PlanningError (FlexibleUseComparison F)
  unfolding compare_window window_in compatibility_mismatches
  compare_start_now best recommended_series comparison_series start duration = do
    prepared ← prepare_points comparison_series.points
    ok (
        compare_window best (window_in prepared start duration)
          (compatibility_mismatches recommended_series comparison_series))

  status_of : StartNowComparisonStatus → Option Bool → FlexibleUseStatus
  status_of compatible (some true) = lower_carbon_window
  status_of compatible _ = no_meaningful_difference
  status_of _ _ = window_found

  -- what is known before a recommendation: the bounds, the duration and the coverage
  pub record Bounds : Type 0 where
    pub earliest : ℕ
    pub latest : ℕ
    pub duration : ℕ

  abbrev plan_of :
      Bounds
      → FlexibleUseStatus
      → Option (ChargingWindow F)
      → ForecastCoverage F
      → FlexibleUseComparison F
      → FlexibleUsePlan F
  plan_of bounds status window coverage comparison = record {
    status = status;
    requested_duration_minutes = bounds.duration / minutes 1;
    earliest_start = bounds.earliest;
    latest_finish = bounds.latest;
    recommended_window = window;
    coverage = coverage;
    comparison = comparison;
  }

  -- from `if not calculated_candidates` on
  conclude :
      CarbonForecastSeries F
      → CarbonForecastSeries F
      → Bounds
      → ℕ
      → ForecastCoverage F
      → List (CalculatedWindow F)
      → Result PlanningError (FlexibleUsePlan F)
  unfolding compare_start_now status_of comparison_without compatibility_mismatches recommended
  conclude forecast series bounds start_now coverage [] = ok (
      plan_of bounds insufficient_coverage none coverage
        (comparison_without (compatibility_mismatches forecast series)))
  conclude forecast series bounds start_now coverage (w ∷ ws) = do
    let best = recommended w ws
    comparison ← compare_start_now best forecast series start_now bounds.duration
    ok (
        plan_of bounds (status_of comparison.status comparison.is_meaningful) (some best.public)
          coverage comparison)

  coverage_of : ℕ → List ℕ → List ℕ → ℕ → ℕ → ForecastCoverage F
  coverage_of duration expected gaps candidates complete = record {
    required_interval_count = duration / half_hour;
    expected_interval_count = length expected;
    available_interval_count = length expected - length gaps;
    coverage_fraction =
        if length expected == 0
        then arithmetic.zero_float
        else arithmetic.fraction (length expected - length gaps) (length expected);
    gap_starts = gaps;
    candidate_start_count = candidates;
    complete_candidate_count = complete;
  }

  -- `start_now_forecast or forecast`
  series_or : CarbonForecastSeries F → Option (CarbonForecastSeries F) → CarbonForecastSeries F
  series_or forecast none = forecast
  series_or forecast (some series) = series

  -- `plan_flexible_use`
  pub plan_flexible_use :
      CarbonForecastSeries F
      → Option (CarbonForecastSeries F)
      → Request
      → Result PlanningError (FlexibleUsePlan F)
  unfolding calculated_candidates steps steps_inclusive conclude coverage_of series_or missing_in
  plan_flexible_use forecast start_now_forecast request = do
    raise_if (not request.continuous) not_continuous
    duration ← duration_checked request.duration
    earliest ← as_utc naive_time request.earliest_start
    latest ← as_utc naive_time request.latest_finish
    comparison_start ← as_utc naive_time request.start_now
    raise_if (leb latest earliest) bounds_reversed
    raise_if (not (is_half_hour_boundary earliest)) bounds_off_boundary
    raise_if (not (is_half_hour_boundary latest)) bounds_off_boundary
    prepared ← prepare_points forecast.points
    let expected = steps (rounds earliest latest) earliest latest
    let gaps = filter (missing_in (by_start [] prepared)) expected
    last ← minus instant_overflow latest duration
    let candidate_starts =
        (if leb earliest last then steps_inclusive (rounds earliest last) earliest last else [])
    let candidates = calculated_candidates prepared duration candidate_starts
    conclude forecast (series_or forecast start_now_forecast)
        (record { earliest = earliest; latest = latest; duration = duration }) comparison_start
        (coverage_of duration expected gaps (length candidate_starts) (length candidates))
        candidates
