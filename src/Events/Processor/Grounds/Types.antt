-- ===== src/Events/Processor/Grounds/Types.antt =====
-- The event type of each candidate of a window, and the observation without which there is none.
use mathlib.Core.List.{Mem}
use hz.Prelude.{◌≡◌, sym, ap, ◌⊎◌, inl, inr, String, false, some}
use hz.Events.Models.{Float, EventCandidate}
use hz.Events.Rules.{
  Platform, leader_candidate, milestone_candidate, reversal_candidate, excursion_candidate,
  total_of, float_le, float_whole,
}
use hz.Events.Rules.Conditions.{LeaderChanges-Mem}
use hz.Events.Processor.Grounds.{IsDetected, FromLeaders, FromRenewables, FromFlows, FromFrequency}
use hz.Events.Processor.{GridObservationWindow}

module _ (platform : Platform) (w : GridObservationWindow) where
  unfoldable pub IsTyped : EventCandidate → Type 0
  IsTyped c =
      ((c.event_type ≡ "generation_leader_change")
        × (entry : String × Float) × Mem entry w.current_generation_mw)
      ⊎ (((c.event_type ≡ "renewable_share_milestone")
            × (float_le (total_of platform w.current_generation_mw) (float_whole 0) ≡ false))
          ⊎ (((c.event_type ≡ "energy_position_reversal")
                × (flow : Float) × (w.current_net_import_mw ≡ some flow))
              ⊎ ((c.event_type ≡ "frequency_excursion")
                  × (hertz : Float) × (w.frequency_hz ≡ some hertz))))

  pub IsDetected-IsTyped : (c : EventCandidate) → IsDetected platform w c → IsTyped c
  unfolding IsDetected IsTyped FromLeaders FromRenewables FromFlows FromFrequency leader_candidate
      milestone_candidate reversal_candidate excursion_candidate
  IsDetected-IsTyped c d = elim d [
    | inl (leader, same, grounded, changes) ↦
        inl
          (sym (ap (λ x. x.event_type) same), leader, LeaderChanges-Mem platform _ _ leader changes)
    | inr (inl (same, grounded, produces, share)) ↦
        inr (inl (sym (ap (λ x. x.event_type) same), produces))
    | inr (inr (inl (p, q, e, f, same, grounded, crosses, large, sustained))) ↦
        inr (inr (inl (sym (ap (λ x. x.event_type) same), q, f)))
    | inr (inr (inr (p, e, same, grounded, outside))) ↦
        inr (inr (inr (sym (ap (λ x. x.event_type) same), p, e)))
  ]

  pub IsDetected-timed :
      (c : EventCandidate) → IsDetected platform w c → c.occurred_at ≡ w.observed_at
  unfolding IsDetected FromLeaders FromRenewables FromFlows FromFrequency
  IsDetected-timed c d = elim d [
    | inl (leader, same, grounded, changes) ↦ grounded.timed
    | inr (inl (same, grounded, produces, share)) ↦ grounded.timed
    | inr (inr (inl (p, q, e, f, same, grounded, crosses, large, sustained))) ↦ grounded.timed
    | inr (inr (inr (p, e, same, grounded, outside))) ↦ grounded.timed
  ]
