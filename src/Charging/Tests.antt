-- ===== src/Charging/Tests.antt =====
-- Two half-hours of a forecast over natural numbers, and the theorems about a window at them.
use hz.Prelude.{
  ℕ, ◌+◌, ◌*◌, ◌/◌, ◌-◌, ltb, ◌≤◌, ◌<◌, ◌≡◌, refl, Option, some, List, [], ◌∷◌, ◌==◌, ok, err,
}
use hz.Prelude.Dicts.{Dict, insert, lookup}
use hz.Prelude.Sorting.{sorted, insert_sorted}
use hz.Time.{half_hour, minutes}
use hz.Charging.{
  Arithmetic, PreparedPoint, CalculatedWindow, prepare_points, check_points, check_order,
  is_half_hour_boundary, by_start, bisect_right, point_covering, point_at, held, holding, started,
  window_at, walk, walked, extend, add_segment, append_id, calculated, no_sums, duration_checked,
  not_whole_intervals,
}
use hz.Charging.Coverage.{Covered, window_at_total, window_at-Covered}

-- floats that are whole
abbrev pub whole : Arithmetic ℕ
whole = record {
  zero_float = 0;
  add = λ a b. a + b;
  multiply = λ a b. a * b;
  divide = λ a b. a / b;
  equal = λ a b. a == b;
  of_duration = λ t. t / 1000000;
  round = λ a. a;
  subtract = λ a b. a - b;
  less = λ a b. ltb a b;
  fraction = λ a b. a / b;
  hundred = 100;
  meaningful_delta = 5;
  meaningful_percent = 5;
}

abbrev pub early : PreparedPoint ℕ
early = record {
  start = half_hour * 10;
  end = half_hour * 11;
  intensity = 100;
  source_record_id = "a";
}

abbrev pub late : PreparedPoint ℕ
late = record {
  start = half_hour * 11;
  end = half_hour * 12;
  intensity = 200;
  source_record_id = "a";
}

abbrev points : Dict ℕ (PreparedPoint ℕ)
points = (half_hour * 10, early) ∷ (half_hour * 11, late) ∷ []

abbrev starts : List ℕ
starts = half_hour * 10 ∷ half_hour * 11 ∷ []

prepared : prepare_points (late ∷ early ∷ []) ≡ ok (early ∷ late ∷ [])
unfolding prepare_points check_points check_order is_half_hour_boundary sorted insert_sorted
prepared = refl

indexed : by_start [] (early ∷ late ∷ []) ≡ points
unfolding by_start insert
indexed = refl

odd_duration : duration_checked (minutes 45) ≡ err not_whole_intervals
unfolding duration_checked
odd_duration = refl

abbrev found : CalculatedWindow ℕ
found = record {
  raw_average = 150;
  public = record {
    start = half_hour * 10 + minutes 15;
    end = half_hour * 11 + minutes 15;
    average_intensity = 150;
    source_record_ids = "a" ∷ [];
  };
}

window_found :
    window_at whole points starts (half_hour * 10 + minutes 15) (minutes 30) ≡ some (some found)
unfolding window_at walk walked extend add_segment append_id calculated no_sums point_covering
    point_at started held holding bisect_right lookup
window_found = refl

window_at_total_example :
    (w : Option (CalculatedWindow ℕ)) × (window_at whole points starts (half_hour * 11) (minutes 60)
      ≡ some w)
window_at_total_example = window_at_total whole points starts (half_hour * 11) (minutes 60)

window_at-Covered_example :
    (found.public.start ≡ half_hour * 10 + minutes 15)
    × (found.public.end ≡ half_hour * 10 + minutes 15 + minutes 30)
    × ((t : ℕ)
        → half_hour * 10 + minutes 15 ≤ t
        → t < half_hour * 10 + minutes 15 + minutes 30
        → Covered points t)
window_at-Covered_example =
    window_at-Covered whole points starts (half_hour * 10 + minutes 15) (minutes 30) found
      window_found
