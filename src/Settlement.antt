-- ===== src/Settlement.antt =====
-- app/domain/settlement.py and app/history/calendar.py: the half-hour periods of a GB settlement day.
-- The time zone database is not part of the program: it is the parameter `Zone`.
pub mod Periods
pub mod Instants
mod Tests
use hz.Prelude.{
  ℕ, zero, suc, ◌+◌, ◌-◌, ◌*◌, ◌/◌, ◌≤◌, ◌<◌, Bool, true, false, ◌&&◌, ◌||◌, not, Option, none,
  some, List, [], ◌∷◌, leb, ltb, if◌then◌else◌, Result, ok, err, raise_if, ◌>>=◌, ◌>>◌,
}
use hz.Prelude.Int.{ℤ, pos, negsuc}
use hz.Time.{Datetime, naive, aware, as_utc, half_hour, day_length, last_date}

-- Europe/London: the instant of the midnight that starts a date, and what the wall clock shows at an
-- instant.
pub record Zone : Type 0 where
  pub midnight : ℕ → ℕ
  pub local : ℕ → ℕ

-- What these functions raise: `TypeError`, the `ValueError`s and `OverflowError`.
pub data SettlementError : Type 0 where
  not_an_integer period_out_of_range naive_instant outside_local_day date_overflow : SettlementError
  not_a_date field_constraint : SettlementError

pub record SettlementPeriod : Type 0 where
  pub settlement_date : ℕ
  pub period : ℕ
  pub start_utc : ℕ
  pub end_utc : ℕ
  pub start_local : ℕ
  pub end_local : ℕ

-- An argument that is annotated `int`: Python does not check the annotation.
pub data PeriodArgument : Type 0 where
  integer : ℤ → PeriodArgument
  boolean : Bool → PeriodArgument
  other_value : PeriodArgument

-- `day + timedelta(days=1)`
next_day : ℕ → Result SettlementError ℕ
next_day day = do raise_if (leb last_date day) date_overflow; ok (suc day)

module _ (zone : Zone) where
  unfoldable pub settlement_day_bounds_utc : ℕ → Result SettlementError (ℕ × ℕ)
  unfolding next_day
  settlement_day_bounds_utc day = do
    let start = zone.midnight day
    next ← next_day day
    ok (start, zone.midnight next)

  -- `int((end - start) / SETTLEMENT_PERIOD)`: a day's end is not before its start.
  unfoldable pub settlement_period_count : ℕ → Result SettlementError ℕ
  unfolding settlement_day_bounds_utc
  settlement_period_count day = do
    (start, end) ← settlement_day_bounds_utc day
    ok ((end - start) / half_hour)

  pub make_period : ℕ → ℕ → ℕ → SettlementPeriod
  make_period day day_start period =
      let start_utc = day_start + (period - 1) * half_hour in
      let end_utc = start_utc + half_hour in
      record {
        settlement_date = day;
        period = period;
        start_utc = start_utc;
        end_utc = end_utc;
        start_local = zone.local start_utc;
        end_local = zone.local end_utc;
      }

  check_period : ℕ → PeriodArgument → Result SettlementError ℕ
  check_period count (boolean b) = err not_an_integer
  check_period count other_value = err not_an_integer
  check_period count (integer (negsuc n)) = err period_out_of_range
  check_period count (integer (pos n)) = do
    raise_if (not (leb 1 n && leb n count)) period_out_of_range
    ok n

  unfoldable pub settlement_period_at : ℕ → PeriodArgument → Result SettlementError SettlementPeriod
  unfolding settlement_period_count check_period make_period
  settlement_period_at day period = do
    count ← settlement_period_count day
    n ← check_period count period
    (day_start, day_end) ← settlement_day_bounds_utc day
    ok (make_period day day_start n)

  -- the generator over `range(period, period + left)`
  periods_from : ℕ → ℕ → ℕ → Result SettlementError (List SettlementPeriod)
  periods_from day period zero = ok []
  periods_from day period (suc left) = do
    p ← settlement_period_at day (integer (pos period))
    rest ← periods_from day (suc period) left
    ok (p ∷ rest)

  unfoldable pub iter_settlement_periods : ℕ → Result SettlementError (List SettlementPeriod)
  unfolding periods_from
  iter_settlement_periods day = do count ← settlement_period_count day; periods_from day 1 count

  unfoldable pub settlement_period_for_instant : Datetime → Result SettlementError SettlementPeriod
  settlement_period_for_instant instant = do
    instant_utc ← as_utc naive_instant instant
    let day = zone.local instant_utc / day_length
    (day_start, day_end) ← settlement_day_bounds_utc day
    raise_if (not (leb day_start instant_utc && ltb instant_utc day_end)) outside_local_day
    settlement_period_at day (integer (pos ((instant_utc - day_start) / half_hour + 1)))

-- app/history/calendar.py

pub record SettlementInterval : Type 0 where
  pub settlement_date : ℕ
  pub settlement_period : ℕ
  pub start : ℕ
  pub end : ℕ

-- `SettlementInterval(…)`, whose period must be between 1 and 50
build_interval : SettlementInterval → Result SettlementError SettlementInterval
build_interval i = do
  raise_if (not (leb 1 i.settlement_period && leb i.settlement_period 50)) field_constraint
  ok i

-- The argument of `expected_settlement_intervals`: a `datetime` is refused, although it is a `date`.
pub data DayArgument : Type 0 where
  civil_date : ℕ → DayArgument
  date_and_time : DayArgument
  not_date : DayArgument

check_day : DayArgument → Result SettlementError ℕ
check_day (civil_date day) = ok day
check_day date_and_time = err not_a_date
check_day not_date = err not_a_date

-- one interval before those of the later rounds; an interval that is refused ends the loop
prepend :
    Result SettlementError SettlementInterval
    → Option (Result SettlementError (List SettlementInterval))
    → Option (Result SettlementError (List SettlementInterval))
prepend (err e) rest = some (err e)
prepend (ok i) none = none
prepend (ok i) (some (err e)) = some (err e)
prepend (ok i) (some (ok is)) = some (ok (i ∷ is))

-- The `while cursor < end` loop, on fuel; `none` says that the fuel ran out.
unfoldable pub collect_intervals :
    ℕ → ℕ → ℕ → ℕ → ℕ → Option (Result SettlementError (List SettlementInterval))
unfolding build_interval prepend
collect_intervals zero day cursor end period = none
collect_intervals (suc fuel) day cursor end period =
    let rest = collect_intervals fuel day (cursor + half_hour) end (period + 1) in
    let more =
      prepend
        (build_interval (record {
          settlement_date = day;
          settlement_period = period;
          start = cursor;
          end = cursor + half_hour;
        }))
        rest in
    if ltb cursor end then more else some (ok [])

collect_until :
    Zone → ℕ → Result SettlementError ℕ → Option (Result SettlementError (List SettlementInterval))
unfolding collect_intervals
collect_until zone day (err e) = some (err e)
collect_until zone day (ok next) =
    let start = zone.midnight day in
    let end = zone.midnight next in collect_intervals (suc (end - start)) day start end 1

collect_day :
    Zone → Result SettlementError ℕ → Option (Result SettlementError (List SettlementInterval))
unfolding collect_until next_day
collect_day zone (err e) = some (err e)
collect_day zone (ok day) = collect_until zone day (next_day day)

-- `none` does not occur: each round moves the cursor towards the end, and the fuel exceeds the day.
unfoldable pub expected_settlement_intervals :
    Zone → DayArgument → Option (Result SettlementError (List SettlementInterval))
unfolding collect_day check_day
expected_settlement_intervals zone argument = collect_day zone (check_day argument)
