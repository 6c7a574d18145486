-- ===== src/Events/Examples.antt =====
-- A platform and an observation window for the runs and the witnesses of app/events.
use hz.Prelude.{ℕ, ◌+◌, ◌*◌, ◌/◌, ◌^◌, some, List, [], ◌∷◌}
use hz.Prelude.Int.{ℤ, pos, pos_part}
use hz.Events.Models.{Float, finite}
use hz.Events.Rules.{Platform, float_whole}
use hz.Events.Processor.{GridObservationWindow}

-- Fixed-point arithmetic that cuts off, on numbers that are not negative.
abbrev units : Float → ℕ
units (finite n) = pos_part n
units other = 0

abbrev add_up : List Float → ℕ
add_up [] = 0
add_up (x ∷ xs) = let rest = add_up xs in units x + rest

abbrev pub fixed_point : Platform
fixed_point = record {
  sum = λ xs. finite (pos (add_up xs));
  divide = λ x y. finite (pos (units x * 2 ^ 1074 / units y));
  multiply = λ x y. finite (pos (units x * units y / 2 ^ 1074));
  round = λ x digits. x;
  isoformat = λ t. "2025-01-06T12:00:00+00:00";
  date_isoformat = λ t. "2025-01-06";
  fixed = λ digits x. "0.50";
}

-- wind overtakes gas, the net flow turns to imports, and the frequency is low
abbrev pub busy : GridObservationWindow
busy = record {
  observed_at = 63871761900000000;
  previous_generation_mw = ("gas", float_whole 9000) ∷ ("wind", float_whole 8000) ∷ [];
  current_generation_mw = ("gas", float_whole 8000) ∷ ("wind", float_whole 12000) ∷ [];
  previous_net_import_mw = some (finite (ℤ.negsuc (500 * 2 ^ 1074)));
  current_net_import_mw = some (float_whole 800);
  net_flow_sustained_samples = pos 2;
  frequency_hz = some (float_whole 49);
  generation_source_record_ids = "fuelinst-1" ∷ [];
  interconnector_source_record_ids = "interconnectors-1" ∷ [];
  frequency_source_record_ids = "freq-1" ∷ [];
}
