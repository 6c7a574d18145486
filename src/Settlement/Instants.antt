-- ===== src/Settlement/Instants.antt =====
-- The period of an instant.
use hz.Prelude.{
  ℕ, suc, ◌+◌, ◌-◌, ◌*◌, ◌/◌, ◌≤◌, ◌<◌, ◌≡◌, refl, ap, sym, List, some, arith, ok, get_elem?,
  lt→ltb, le→leb, Result-cases, inl, inr,
}
use hz.Prelude.Int.{pos}
use hz.Time.{Datetime, naive, aware, half_hour, day_length}
use hz.Settlement.{
  Zone, SettlementPeriod, integer, settlement_day_bounds_utc, settlement_period_at, make_period,
  settlement_period_for_instant, iter_settlement_periods,
}
use hz.Settlement.Periods.{
  IsWhole, bounds-eq, settlement_period_at-eq, iter-eq, listed, listed-get_elem?,
}

module _ (zone : Zone) where
  bounds_start :
      (day s e : ℕ) → settlement_day_bounds_utc zone day ≡ ok (s, e) → s ≡ zone.midnight day
  unfolding settlement_day_bounds_utc
  bounds_start day s e h = ground arith

  at-eq :
      (day n : ℕ) (p : SettlementPeriod)
      → settlement_period_at zone day (integer (pos n)) ≡ ok p
      → p ≡ make_period zone day (zone.midnight day) n
  unfolding settlement_period_at settlement_day_bounds_utc
  at-eq day n p h = ground arith

  abbrev local_date : ℕ → ℕ
  local_date t = zone.local t / day_length

  -- The period that is found for an instant holds the instant and is of its local date, whatever the
  -- time zone database says; a naive datetime has none.
  pub settlement_period_for_instant-holds :
      (instant : Datetime) (p : SettlementPeriod)
      → settlement_period_for_instant zone instant ≡ ok p
      → (t : ℕ) × (instant ≡ aware t)
        × (p.start_utc ≤ t)
        × (t < p.end_utc)
        × (p.settlement_date ≡ zone.local t / day_length)
  unfolding settlement_period_for_instant
  settlement_period_for_instant-holds naive p h = cc
  settlement_period_for_instant-holds (aware t) p h =
      elim (Result-cases (settlement_day_bounds_utc zone (local_date t))) [
        | inl ((s, e), b) ↦
            let start : s ≡ zone.midnight (local_date t) = bounds_start (local_date t) s e b in
            let got : settlement_period_at zone (local_date t)
                  (integer (pos ((t - s) / half_hour + 1)))
                ≡ ok p =
              ground arith in
            let same = at-eq (local_date t) ((t - s) / half_hour + 1) p got in
            let after : s ≤ t = ground arith in
            rw same (unfold make_period in (t, refl, omega arith, omega arith, refl))
        | inr (e, b) ↦ absurd (ground arith)
      ]

  module _ (day count : ℕ) (whole : IsWhole zone day count) where
    inside :
        (i t : ℕ) (p : SettlementPeriod)
        → i < count
        → p ≡ make_period zone day (zone.midnight day) (1 + i)
        → p.start_utc ≤ t
        → t < p.end_utc
        → zone.local t / day_length ≡ day
        → settlement_period_for_instant zone (aware t) ≡ ok p
    unfolding settlement_period_for_instant make_period
    inside i t p below same from until date =
        let from' : zone.midnight day + (1 + i - 1) * half_hour ≤ t = rw same at from in
        let until' : t < zone.midnight day + (1 + i - 1) * half_hour + half_hour =
          rw same at until in
        let place : (t - zone.midnight day) / half_hour + 1 ≡ 1 + i = omega arith in
        rw
          (
            date,
            bounds-eq zone day count whole,
            le→leb (zone.midnight day) t (omega arith),
            lt→ltb t (zone.midnight (suc day)) (omega (arith, whole.half_hours)),
            place,
            settlement_period_at-eq zone day count whole (1 + i) (omega arith) (omega arith),
          )
          (ap ok (sym same))

    -- An instant inside a listed period of its own local date resolves to that period.
    pub settlement_period_for_instant-listed :
        (ps : List SettlementPeriod) (i t : ℕ) (p : SettlementPeriod)
        → iter_settlement_periods zone day ≡ ok ps
        → get_elem? ps i ≡ some p
        → p.start_utc ≤ t
        → t < p.end_utc
        → zone.local t / day_length ≡ day
        → settlement_period_for_instant zone (aware t) ≡ ok p
    unfolding settlement_period_for_instant
    settlement_period_for_instant-listed ps i t p h g from until date =
        let e : listed zone day count whole 1 count ≡ ps = cc (iter-eq zone day count whole) in
        let (below, same) = listed-get_elem? zone day count whole 1 count i p (rw e g) in
        inside i t p below same from until date
