-- ===== src/Events/Processor.antt =====
-- app/events/processor.py: one normalized observation window and the rules that look at it.
pub mod Grounds
pub mod Totals
mod Tests
use hz.Prelude.{ℕ, String, Option, none, some, List, [], ◌∷◌, Result, ok, ◌>>=◌}
use hz.Prelude.Int.{ℤ}
use hz.Prelude.Dicts.{Dict}
use hz.Events.Models.{Float, EventCandidate, CandidateError}
use hz.Events.Rules.{
  Platform, milestone_threshold, generation_leader_change, renewable_share_milestone,
  interconnector_reversal, frequency_excursion,
}

pub record GridObservationWindow : Type 0 where
  pub observed_at : ℕ
  pub previous_generation_mw : Dict String Float
  pub current_generation_mw : Dict String Float
  pub previous_net_import_mw : Option Float
  pub current_net_import_mw : Option Float
  pub net_flow_sustained_samples : ℤ
  pub frequency_hz : Option Float
  pub generation_source_record_ids : List String
  pub interconnector_source_record_ids : List String
  pub frequency_source_record_ids : List String

-- `[candidate for candidate in candidates if candidate is not None]`
unfoldable pub present {ℓ} : {A : Type ℓ} → List (Option A) → List A
present [] = []
present (none ∷ rest) = present rest
present (some a ∷ rest) = a ∷ present rest

module _ (platform : Platform) where
  -- A rule whose observation is absent is not asked, which leaves `none` here.
  reversal_of :
      Option Float
      → Option Float
      → GridObservationWindow
      → Result CandidateError (Option EventCandidate)
  reversal_of (some previous) (some current) window =
      interconnector_reversal platform previous current window.observed_at
        window.interconnector_source_record_ids window.net_flow_sustained_samples
  reversal_of previous current window = ok none

  excursion_of :
      Option Float → GridObservationWindow → Result CandidateError (Option EventCandidate)
  excursion_of none window = ok none
  excursion_of (some frequency) window =
      frequency_excursion platform frequency window.observed_at window.frequency_source_record_ids

  unfoldable pub evaluate : GridObservationWindow → Result CandidateError (List EventCandidate)
  unfolding reversal_of excursion_of
  evaluate window = do
    change ←
        generation_leader_change platform window.previous_generation_mw window.current_generation_mw
          window.observed_at window.generation_source_record_ids
    milestone ←
        renewable_share_milestone platform window.current_generation_mw window.observed_at
          window.generation_source_record_ids milestone_threshold
    reversal ← reversal_of window.previous_net_import_mw window.current_net_import_mw window
    excursion ← excursion_of window.frequency_hz window
    ok (present (change ∷ milestone ∷ reversal ∷ excursion ∷ []))
