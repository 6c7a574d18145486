-- ===== src/Charging.antt =====
-- app/charging/planner.py, app/charging/models.py: the forecast points of the planner for flexible use
-- and the window that starts at an instant. Floats are the parameter `Arithmetic`; a duration is in
-- microseconds.
pub mod Coverage
pub mod Plan
mod Tests
use hz.Prelude.{
  ℕ, zero, suc, ◌+◌, ◌-◌, ◌*◌, ◌/◌, ◌%◌, min, String, Bool, true, false, ◌&&◌, ◌||◌, not, Option,
  none, some, List, [], ◌∷◌, ◌++◌, map, any, leb, ltb, ◌==◌, str_eq, if◌then◌else◌, get_elem?,
  Result, ok, err, raise_if, ◌>>=◌, ◌>>◌,
}
use hz.Prelude.Dicts.{Dict, lookup, insert}
use hz.Prelude.Sorting.{sorted}
use hz.Time.{half_hour, seconds}

pub data PlanningError : Type 0 where
  not_positive not_whole_intervals wrong_length off_boundary overlapping : PlanningError
  not_continuous naive_time bounds_reversed bounds_off_boundary instant_overflow : PlanningError

-- What the window uses of floats. `of_duration` is `total_seconds()` of microseconds.
pub record Arithmetic (F : Type 0) : Type 0 where
  pub zero_float : F
  pub add : F → F → F
  pub multiply : F → F → F
  pub divide : F → F → F
  pub equal : F → F → Bool
  pub of_duration : ℕ → F
  -- `round(…, 2)`
  pub round : F → F
  pub subtract : F → F → F
  pub less : F → F → Bool
  -- `available / expected`, rounded to 4 places
  pub fraction : ℕ → ℕ → F
  -- 100.0, and the two thresholds of a meaningful difference
  pub hundred : F
  pub meaningful_delta : F
  pub meaningful_percent : F

-- its average is not negative, because no intensity is
pub record ChargingWindow (F : Type 0) : Type 0 where
  pub start : ℕ
  pub end : ℕ
  pub average_intensity : F
  pub source_record_ids : List String

pub record CalculatedWindow (F : Type 0) : Type 0 where
  pub raw_average : F
  pub public : ChargingWindow F

-- `_PreparedPoint`, and a forecast point, whose times are aware
pub record PreparedPoint (F : Type 0) : Type 0 where
  pub start : ℕ
  pub end : ℕ
  pub intensity : F
  pub source_record_id : String

-- `_duration_seconds`, in microseconds; a negative duration is refused as zero is.
unfoldable pub duration_checked : ℕ → Result PlanningError ℕ
duration_checked duration = do
  raise_if (leb duration 0) not_positive
  raise_if (not (duration % half_hour == 0)) not_whole_intervals
  ok duration

-- `_is_half_hour_boundary`: year 1 starts on one.
unfoldable pub is_half_hour_boundary : ℕ → Bool
is_half_hour_boundary t = t % half_hour == 0

-- `bisect_right` on a sorted list
unfoldable pub bisect_right : List ℕ → ℕ → ℕ
bisect_right [] instant = 0
bisect_right (s ∷ ss) instant =
    let rest = bisect_right ss instant in if leb s instant then suc rest else 0

-- The sums of the loop in `_window_at`.
pub record Sums (F : Type 0) : Type 0 where
  pub weighted_total : F
  pub covered_seconds : F
  pub source_record_ids : List String

module _ {F : Type 0} where
  -- the first loop of `_prepare_points`
  check_points : List (PreparedPoint F) → Result PlanningError (Unit {0})
  unfolding is_half_hour_boundary
  check_points [] = ok tt
  check_points (p ∷ ps) = do
    raise_if (not (p.end == p.start + half_hour)) wrong_length
    raise_if (not (is_half_hour_boundary p.start)) off_boundary
    check_points ps

  -- the second loop
  check_order : List (PreparedPoint F) → Result PlanningError (Unit {0})
  check_order [] = ok tt
  check_order (p ∷ []) = ok tt
  check_order (p ∷ q ∷ rest) = do raise_if (ltb q.start p.end) overlapping; check_order (q ∷ rest)

  -- `_prepare_points`
  unfoldable pub prepare_points :
      List (PreparedPoint F) → Result PlanningError (List (PreparedPoint F))
  unfolding check_points check_order
  prepare_points points = do
    let prepared = sorted (λ p q. leb p.start q.start) points
    check_points prepared
    check_order prepared
    ok prepared

  -- `{point.start: point for point in prepared}`
  unfoldable pub by_start :
      Dict ℕ (PreparedPoint F) → List (PreparedPoint F) → Dict ℕ (PreparedPoint F)
  by_start d [] = d
  by_start d (p ∷ ps) = by_start (insert ◌==◌ p.start p d) ps

  holding : ℕ → PreparedPoint F → Option (PreparedPoint F)
  holding instant p = if leb p.start instant && ltb instant p.end then some p else none

  started : Dict ℕ (PreparedPoint F) → Option ℕ → Option (PreparedPoint F)
  started points none = none
  started points (some s) = lookup ◌==◌ s points

  -- `by_start[starts[index]]`; no point stands at an index or a start that is missing.
  point_at : Dict ℕ (PreparedPoint F) → List ℕ → ℕ → Option (PreparedPoint F)
  unfolding started
  point_at points starts zero = none
  point_at points starts (suc index) = started points (get_elem? starts index)

  held : ℕ → Option (PreparedPoint F) → Option (PreparedPoint F)
  unfolding holding
  held instant none = none
  held instant (some p) = holding instant p

  -- `_point_covering`
  pub point_covering : Dict ℕ (PreparedPoint F) → List ℕ → ℕ → Option (PreparedPoint F)
  unfolding held point_at
  point_covering points starts instant =
      held instant (point_at points starts (bisect_right starts instant))

module _ {F : Type 0} (arithmetic : Arithmetic F) where
  -- `if not source_record_ids or source_record_ids[-1] != …: append`
  append_id : String → List String → List String
  append_id id [] = id ∷ []
  append_id id (i ∷ []) = if str_eq i id then i ∷ [] else i ∷ id ∷ []
  append_id id (i ∷ j ∷ rest) = i ∷ append_id id (j ∷ rest)

  add_segment : Sums F → PreparedPoint F → ℕ → Sums F
  unfolding append_id
  add_segment sums point duration = record {
    weighted_total =
        arithmetic.add sums.weighted_total
          (arithmetic.multiply point.intensity (arithmetic.of_duration duration));
    covered_seconds = arithmetic.add sums.covered_seconds (arithmetic.of_duration duration);
    source_record_ids = append_id point.source_record_id sums.source_record_ids;
  }

  -- the rest of a round of the loop; `next` is the loop's further rounds
  extend :
      Option (PreparedPoint F)
      → ℕ
      → ℕ
      → Sums F
      → (ℕ → Sums F → Option (Option (Sums F)))
      → Option (Option (Sums F))
  unfolding add_segment
  extend none target cursor sums next = some none
  extend (some p) target cursor sums next =
      let segment_end = min p.end target in
      if leb segment_end cursor
      then some none
      else next segment_end (add_segment sums p (segment_end - cursor))

  -- The loop of `_window_at`; `none` where the fuel is gone, `some none` where it returns `None`.
  pub walk : ℕ → Dict ℕ (PreparedPoint F) → List ℕ → ℕ → ℕ → Sums F → Option (Option (Sums F))
  unfolding extend
  walk zero points starts target cursor sums = none
  walk (suc fuel) points starts target cursor sums =
      if ltb cursor target
      then extend (point_covering points starts cursor) target cursor sums
          (λ segment_end more. walk fuel points starts target segment_end more)
      else some (some sums)

  no_sums : Sums F
  no_sums = record {
    weighted_total = arithmetic.zero_float;
    covered_seconds = arithmetic.zero_float;
    source_record_ids = [];
  }

  -- what `_window_at` does after its loop
  calculated : ℕ → ℕ → Sums F → Option (CalculatedWindow F)
  calculated start duration sums =
      if not (arithmetic.equal sums.covered_seconds (arithmetic.of_duration duration))
      then none
      else (let average = arithmetic.divide sums.weighted_total sums.covered_seconds in
          some (record {
            raw_average = average;
            public = record {
              start = start;
              end = start + duration;
              average_intensity = arithmetic.round average;
              source_record_ids = sums.source_record_ids;
            };
          }))

  walked : ℕ → ℕ → Option (Option (Sums F)) → Option (Option (CalculatedWindow F))
  unfolding calculated
  walked start duration none = none
  walked start duration (some none) = some none
  walked start duration (some (some sums)) = some (calculated start duration sums)

  -- `_window_at`. A round advances the cursor, so one round more than the duration is fuel enough.
  unfoldable pub window_at :
      Dict ℕ (PreparedPoint F) → List ℕ → ℕ → ℕ → Option (Option (CalculatedWindow F))
  unfolding walk walked no_sums
  window_at points starts start duration =
      walked start duration (walk (suc duration) points starts (start + duration) start no_sums)
