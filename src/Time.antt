-- ===== src/Time.antt =====
-- Python's `datetime` and `timedelta`, as far as the modules share them.
-- An instant is a number of microseconds since the start of year 1 in UTC; so is what a wall clock
-- shows, in its own zone. A date is a number of days since then. A duration that the code gives as
-- positive is a number of microseconds.
use hz.Prelude.{◌+◌, ℕ, ◌*◌, Result, ok, err, ltb, ◌-◌, raise_if, ◌>>◌}

-- `tzinfo is None or utcoffset() is None`, or an instant.
pub data Datetime : Type 0 where
  naive : Datetime
  aware : ℕ → Datetime

abbrev pub seconds : ℕ → ℕ
seconds n = n * 1000000

abbrev pub minutes : ℕ → ℕ
minutes n = seconds (n * 60)

abbrev pub hours : ℕ → ℕ
hours n = minutes (n * 60)

abbrev pub day_length : ℕ
day_length = hours 24

-- the number of days from 0001-01-01 to 9999-12-31
abbrev pub last_date : ℕ
last_date = 3652058

abbrev pub half_hour : ℕ
half_hour = minutes 30

-- `value.astimezone(UTC)` behind the check of a naive value, which raises `e`
abbrev pub as_utc : {E : Type 0} → E → Datetime → Result E ℕ
as_utc e naive = err e
as_utc e (aware t) = ok t

-- `instant - duration`, which raises `e` before year 1
abbrev pub minus : {E : Type 0} → E → ℕ → ℕ → Result E ℕ
minus e t d = do raise_if (ltb t d) e; ok (t - d)

-- the last instant of year 9999
abbrev pub last_instant : ℕ
last_instant = 315537897599999999

-- `instant + duration`, which raises `e` after year 9999
abbrev pub plus : {E : Type 0} → E → ℕ → ℕ → Result E ℕ
plus e t d = do raise_if (ltb last_instant (t + d)) e; ok (t + d)
