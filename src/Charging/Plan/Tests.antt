-- ===== src/Charging/Plan/Tests.antt =====
-- A plan over the two half-hours.
use hz.Prelude.{All, arith, ltb, ◌==◌}
use hz.Charging.{CalculatedWindow}
use hz.Prelude.{ℕ, ◌*◌, ◌≡◌, refl, none, true, false, some, [], ◌∷◌, ok}
use hz.Prelude.Dicts.{insert, lookup}
use hz.Prelude.Sorting.{sorted, insert_sorted}
use hz.Time.{half_hour, aware}
use hz.Charging.{
  prepare_points, check_points, check_order, is_half_hour_boundary, by_start, bisect_right,
  point_covering, point_at, held, holding, started, window_at, walk, walked, extend, add_segment,
  append_id, calculated, no_sums, duration_checked,
}
use hz.Prelude.Int.{pos, ltb_ℤ, eq_ℤ}
use mathlib.Core.List.{Mem}
use hz.Charging.Plan.Choice.{IsNoWorse, recommended_least}
use hz.Charging.Plan.{
  CarbonForecastSeries, Request, FlexibleUsePlan, plan_flexible_use, calculated_candidates, steps,
  steps_inclusive, conclude, coverage_of, series_or, missing_in, window_in, collect, settled,
  recommended, better, precedes, compare_start_now, compare_window, meaningful, rounded, percent_of,
  compatibility_mismatches, unless, same_instant, status_of, no_meaningful_difference, compatible,
}
use hz.Charging.Tests.{whole, early, late}

abbrev forecast : CarbonForecastSeries ℕ
forecast = record {
  series_id = "national";
  geography = "GB";
  source_id = "neso";
  methodology_version = "1";
  vintage_at = none;
  points = early ∷ late ∷ [];
}

abbrev request : Request
request = record {
  duration = half_hour;
  earliest_start = aware (half_hour * 10);
  latest_finish = aware (half_hour * 13);
  start_now = aware (half_hour * 11);
  continuous = true;
}

abbrev plan : FlexibleUsePlan ℕ
plan = record {
  status = no_meaningful_difference;
  requested_duration_minutes = 30;
  earliest_start = half_hour * 10;
  latest_finish = half_hour * 13;
  recommended_window = some (record {
    start = half_hour * 10;
    end = half_hour * 11;
    average_intensity = 100;
    source_record_ids = "a" ∷ [];
  });
  coverage = record {
    required_interval_count = 1;
    expected_interval_count = 3;
    available_interval_count = 2;
    coverage_fraction = 0;
    gap_starts = half_hour * 12 ∷ [];
    candidate_start_count = 3;
    complete_candidate_count = 2;
  };
  comparison = record {
    status = compatible;
    start_now_window = some (record {
      start = half_hour * 11;
      end = half_hour * 12;
      average_intensity = 200;
      source_record_ids = "a" ∷ [];
    });
    incompatibility_fields = [];
    delta = some 100;
    percent_lower = some 0;
    is_meaningful = some false;
  };
}

-- the quotient of the delta is 0 in these numbers, so that the difference is not meaningful
planned : plan_flexible_use whole forecast none request ≡ ok plan
unfolding plan_flexible_use duration_checked is_half_hour_boundary prepare_points check_points
    check_order by_start insert sorted insert_sorted steps steps_inclusive missing_in conclude
    coverage_of series_or calculated_candidates collect settled window_in window_at walk walked
    extend add_segment append_id calculated no_sums point_covering point_at started held holding
    bisect_right lookup recommended better precedes compare_start_now compare_window meaningful
    rounded percent_of compatibility_mismatches unless same_instant status_of
planned = refl

abbrev cheap : CalculatedWindow ℕ
cheap = record {
  raw_average = 100;
  public = record { start = 5; end = 6; average_intensity = 100; source_record_ids = [] };
}

abbrev dear : CalculatedWindow ℕ
dear = record {
  raw_average = 200;
  public = record { start = 3; end = 4; average_intensity = 200; source_record_ids = [] };
}

less_pos : (a b : ℕ) → ltb a b ≡ ltb_ℤ (pos a) (pos b)
less_pos a b = ground arith

equal_pos : (a b : ℕ) → (a == b) ≡ eq_ℤ (pos a) (pos b)
equal_pos a b = ground arith

recommended_least_example :
    Mem (recommended whole dear (cheap ∷ [])) (dear ∷ cheap ∷ [])
    × All (λ w. IsNoWorse (λ n. pos n) (recommended whole dear (cheap ∷ [])) w) (dear ∷ cheap ∷ [])
recommended_least_example =
    recommended_least whole (λ n. pos n) less_pos equal_pos dear (cheap ∷ [])
