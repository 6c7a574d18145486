-- ===== src/ForecastVerification/Buckets.antt =====
-- The horizon buckets split the first 48 hours.
use hz.Prelude.{ℕ, ◌<◌, ◌≡◌, true, Option, none, some, List, [], ◌∷◌, arith, if◌then◌else◌, ◌↔◌}
use hz.Time.{hours}
use hz.ForecastVerification.{
  HorizonBucket, zero_to_three_hours, three_to_twelve_hours, twelve_to_twenty_four_hours,
  twenty_four_to_forty_eight_hours, contains, horizon_buckets,
}

-- `next((bucket for bucket in … if bucket.contains(horizon)), None)`
unfoldable pub first_containing : ℕ → List HorizonBucket → Option HorizonBucket
first_containing horizon [] = none
first_containing horizon (b ∷ bs) =
    let rest = first_containing horizon bs in if contains b horizon then some b else rest

-- A horizon up to 48 hours is found in the one bucket that contains it, and a longer one in none.
pub first_containing_iff :
    (horizon : ℕ) (b : HorizonBucket)
    → (first_containing horizon horizon_buckets ≡ some b) ↔ (contains b horizon ≡ true)
unfolding first_containing contains
first_containing_iff horizon zero_to_three_hours = ground arith
first_containing_iff horizon three_to_twelve_hours = ground arith
first_containing_iff horizon twelve_to_twenty_four_hours = ground arith
first_containing_iff horizon twenty_four_to_forty_eight_hours = ground arith

pub first_containing-none :
    (horizon : ℕ) → (first_containing horizon horizon_buckets ≡ none) ↔ (hours 48 < horizon)
unfolding first_containing contains
first_containing-none horizon = ground arith
