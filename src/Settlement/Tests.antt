-- ===== src/Settlement/Tests.antt =====
-- A time zone whose clocks go back on day 3, and the theorems about settlement days in it.
use hz.Prelude.{
  ℕ, ◌+◌, ◌-◌, ◌*◌, ◌/◌, ◌≤◌, ◌<◌, ◌≡◌, refl, List, some, map, arith, ok, get_elem?, length, ltb,
  leb, if◌then◌else◌,
}
use hz.Time.{aware, half_hour, day_length, hours, Datetime}
use hz.Settlement.{
  Zone, SettlementPeriod, settlement_period_at, settlement_period_count,
  settlement_period_for_instant, iter_settlement_periods, expected_settlement_intervals, civil_date,
  make_period,
}
use hz.Settlement.Periods.{
  listed, IsWhole, calendar-eq-iter, iter_settlement_periods-tile, to_interval,
}
use hz.Settlement.Instants.{
  settlement_period_for_instant-holds, settlement_period_for_instant-listed,
}

program : Unit {0}
unfolding settlement_period_at settlement_period_count settlement_period_for_instant
    iter_settlement_periods expected_settlement_intervals make_period
program = tt

-- one hour ahead of UTC until 01:00 UTC of day 3
abbrev zone : Zone
zone = record {
  midnight = λ day. if leb day 3 then day * day_length - hours 1 else day * day_length;
  local = λ t. if ltb t (3 * day_length + hours 1) then t + hours 1 else t;
}

day_is_whole : IsWhole zone 3 50
day_is_whole = record { in_range = omega arith; half_hours = refl }

abbrev periods : List SettlementPeriod
periods = listed zone 3 50 day_is_whole 1 50

fifty_periods : settlement_period_count zone 3 ≡ ok 50
unfolding program
fifty_periods = refl

periods_listed : iter_settlement_periods zone 3 ≡ ok periods
unfolding program
periods_listed = refl

calendar-eq-iter_example :
    (ps : List SettlementPeriod) × (iter_settlement_periods zone 3 ≡ ok ps)
    × (expected_settlement_intervals zone (civil_date 3)
        ≡ some (ok (map (to_interval zone 3 50 day_is_whole) ps)))
calendar-eq-iter_example = calendar-eq-iter zone 3 50 day_is_whole (omega arith)

iter_settlement_periods-tile_example :
    (length periods ≡ 50)
    × ((i : ℕ) (p : SettlementPeriod)
        → get_elem? periods i ≡ some p
        → (p.period ≡ i + 1)
          × (p.start_utc ≡ zone.midnight 3 + i * half_hour)
          × (p.end_utc ≡ zone.midnight 3 + (i + 1) * half_hour)
          × (p.end_utc ≤ zone.midnight 4))
iter_settlement_periods-tile_example =
    iter_settlement_periods-tile zone 3 50 day_is_whole periods periods_listed

abbrev second_period : SettlementPeriod
second_period = make_period zone 3 (zone.midnight 3) 2

abbrev instant : ℕ
instant = 3 * day_length - half_hour + 7

found : settlement_period_for_instant zone (aware instant) ≡ ok second_period
unfolding program
found = refl

settlement_period_for_instant-holds_example :
    (t : ℕ) × (◌≡◌ {A = Datetime} (aware instant) (aware t))
    × (second_period.start_utc ≤ t)
    × (t < second_period.end_utc)
    × (second_period.settlement_date ≡ zone.local t / day_length)
settlement_period_for_instant-holds_example =
    settlement_period_for_instant-holds zone (aware instant) second_period found

settlement_period_for_instant-listed_example :
    settlement_period_for_instant zone (aware instant) ≡ ok second_period
unfolding program
settlement_period_for_instant-listed_example =
    settlement_period_for_instant-listed zone 3 50 day_is_whole periods 1 instant second_period
      periods_listed refl (omega arith) (omega arith) refl
