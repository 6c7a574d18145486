-- ===== src/Settlement/Periods.antt =====
-- The periods of a day: they tile it, and the two modules that list them agree.
use hz.Prelude.{
  ℕ, zero, suc, ◌+◌, ◌-◌, ◌*◌, ◌≤◌, ◌<◌, ◌≡◌, refl, ap, sym, ◌∙◌, some, List, [], ◌∷◌, map, arith,
  ok, Result, get_elem?, length, lt→ltb, le→leb,
}
use native.Mathlib.Numerals.{add-one}
use hz.Prelude.Int.{pos}
use hz.Time.{half_hour, last_date}
use hz.Settlement.{
  Zone, SettlementPeriod, SettlementInterval, integer, settlement_period_count,
  settlement_day_bounds_utc, settlement_period_at, make_period, periods_from,
  iter_settlement_periods, collect_intervals, expected_settlement_intervals, civil_date, next_day,
  collect_until, SettlementError,
}

-- What the theorems ask of the time zone on a date: the next midnight is a number of half hours later.
pub record IsWhole (zone : Zone) (day count : ℕ) : Type 0 where
  pub in_range : day < last_date
  pub half_hours : zone.midnight (suc day) ≡ zone.midnight day + count * half_hour

module _ (zone : Zone) (day count : ℕ) (whole : IsWhole zone day count) where
  pub bounds-eq :
      settlement_day_bounds_utc zone day ≡ ok (zone.midnight day, zone.midnight (suc day))
  unfolding settlement_day_bounds_utc
  bounds-eq = ground arith

  pub settlement_period_count-eq : settlement_period_count zone day ≡ ok count
  unfolding settlement_period_count
  settlement_period_count-eq = rw bounds-eq (ap ok (omega arith))

  pub settlement_period_at-eq :
      (n : ℕ)
      → 1 ≤ n
      → n ≤ count
      → settlement_period_at zone day (integer (pos n))
        ≡ ok (make_period zone day (zone.midnight day) n)
  unfolding settlement_period_at
  settlement_period_at-eq n h k =
      rw (settlement_period_count-eq, le→leb 1 n h, le→leb n count k, bounds-eq) refl

  -- the periods from one number on
  abbrev pub listed : ℕ → ℕ → List SettlementPeriod
  listed n zero = []
  listed n (suc left) = make_period zone day (zone.midnight day) n ∷ listed (suc n) left

  periods_from-eq :
      (n left : ℕ)
      → 1 ≤ n
      → n + left ≤ count + 1
      → periods_from zone day n left ≡ ok (listed n left)
  unfolding periods_from
  periods_from-eq n zero h k = refl
  periods_from-eq n (suc left) h k =
      rw
        (
          settlement_period_at-eq n h (omega arith),
          periods_from-eq (suc n) left (omega arith) (omega arith),
        )
        refl

  pub iter-eq : iter_settlement_periods zone day ≡ ok (listed 1 count)
  unfolding iter_settlement_periods
  iter-eq =
      rw (settlement_period_count-eq, periods_from-eq 1 count (omega arith) (omega arith)) refl

  pub listed-get_elem? :
      (n left i : ℕ) (p : SettlementPeriod)
      → get_elem? (listed n left) i ≡ some p
      → (i < left) × (p ≡ make_period zone day (zone.midnight day) (n + i))
  listed-get_elem? n zero i p h = cc
  listed-get_elem? n (suc left) zero p h = (
    omega arith,
    let e : make_period zone day (zone.midnight day) n ≡ p = cc in
        sym e ∙ ap (make_period zone day (zone.midnight day)) (omega arith),
  )
  listed-get_elem? n (suc left) (suc i) p h =
      let (below, same) = listed-get_elem? (suc n) left i p h in
      (omega arith, same ∙ ap (make_period zone day (zone.midnight day)) (omega arith))

  length-listed : (n left : ℕ) → length (listed n left) ≡ left
  length-listed n zero = refl
  length-listed n (suc left) = ap suc (length-listed (suc n) left)

  -- The interval that the calendar of the history makes of a period.
  abbrev pub to_interval : SettlementPeriod → SettlementInterval
  to_interval p = record {
    settlement_date = p.settlement_date;
    settlement_period = p.period;
    start = p.start_utc;
    end = p.end_utc;
  }

  collect-eq :
      (fuel n left cursor end : ℕ)
      → 1 ≤ n
      → n + left ≤ 51
      → left < fuel
      → cursor ≡ zone.midnight day + (n - 1) * half_hour
      → end ≡ cursor + left * half_hour
      → collect_intervals fuel day cursor end n ≡ some (ok (map to_interval (listed n left)))
  unfolding collect_intervals
  collect-eq zero n left cursor end h k f c e = absurd (omega arith)
  collect-eq (suc fuel) n zero cursor end h k f c e = ground arith
  collect-eq (suc fuel) n (suc left) cursor end h k f c e =
      rw
        (
          lt→ltb cursor end (omega arith),
          le→leb 1 n h,
          le→leb n 50 (omega arith),
          add-one,
          collect-eq fuel (suc n) left (cursor + half_hour) end (omega arith) (omega arith)
              (omega arith) (omega arith) (omega arith),
        )
        (unfold make_period in rw c refl)

  next_day-eq : next_day day ≡ ok (suc day)
  unfolding next_day
  next_day-eq = ground arith

  -- On a date before the last, of at most fifty half hours: the history's calendar, whose loop ends,
  -- lists exactly the settlement periods that the domain module lists.
  pub calendar-eq-iter :
      count ≤ 50
      → (ps : List SettlementPeriod) × (iter_settlement_periods zone day ≡ ok ps)
        × (expected_settlement_intervals zone (civil_date day) ≡ some (ok (map to_interval ps)))
  unfolding expected_settlement_intervals collect_until
  calendar-eq-iter few = (listed 1 count, iter-eq, until_eq (next_day day) next_day-eq)
    where
      until_eq :
          (r : Result SettlementError ℕ)
          → r ≡ ok (suc day)
          → collect_until zone day r ≡ some (ok (map to_interval (listed 1 count)))
      until_eq r e = rw e (
          collect-eq (suc (zone.midnight (suc day) - zone.midnight day)) 1 count (zone.midnight day)
            (zone.midnight (suc day)) (omega arith) (omega arith) (omega arith) (omega arith)
            whole.half_hours)

  -- The periods of a date tile it: there are `count`, numbered from 1, the first starts at midnight,
  -- each is half an hour long and starts where the one before it ends.
  pub iter_settlement_periods-tile :
      (ps : List SettlementPeriod)
      → iter_settlement_periods zone day ≡ ok ps
      → (length ps ≡ count)
        × ((i : ℕ) (p : SettlementPeriod)
            → get_elem? ps i ≡ some p
            → (p.period ≡ i + 1)
              × (p.start_utc ≡ zone.midnight day + i * half_hour)
              × (p.end_utc ≡ zone.midnight day + (i + 1) * half_hour)
              × (p.end_utc ≤ zone.midnight (suc day)))
  iter_settlement_periods-tile ps h =
      let e : listed 1 count ≡ ps = cc iter-eq in
      rw (← e) (length-listed 1 count, λ i p g. placed i p (listed-get_elem? 1 count i p g))
    where
      placed :
          (i : ℕ) (p : SettlementPeriod)
          → (i < count) × (p ≡ make_period zone day (zone.midnight day) (1 + i))
          → (p.period ≡ i + 1)
            × (p.start_utc ≡ zone.midnight day + i * half_hour)
            × (p.end_utc ≡ zone.midnight day + (i + 1) * half_hour)
            × (p.end_utc ≤ zone.midnight (suc day))
      placed i p (below, e) = rw e (unfold make_period in omega (arith, whole.half_hours))
