-- ===== src/Events/Processor/Grounds.antt =====
-- What the candidates of an observation window rest on.
pub mod Types
use mathlib.Core.Path.{subst}
use hz.Prelude.{
  ◌≡◌, refl, ap, ◌∙◌, ◌⊎◌, inl, inr, String, true, false, Option, none, some, List, [], ◌∷◌, All,
  Result, ok, err, ◌>>=◌, arith,
}
use hz.Prelude.Int.{pos, ◌≤ℤ◌}
use hz.Events.Models.{Float, EventCandidate, CandidateError}
use hz.Events.Rules.{
  Platform, leader_candidate, milestone_candidate, reversal_candidate, excursion_candidate,
  total_of, renewables_of, crossed, abs, in_band, float_lt, float_le, float_whole,
  milestone_threshold, generation_leader_change, renewable_share_milestone,
}
use hz.Events.Rules.Grounds.{IsGrounded}
use hz.Events.Rules.Conditions.{
  LeaderChanges, none_or_some, generation_leader_change-some, renewable_share_milestone-some,
  interconnector_reversal-some, frequency_excursion-some,
}
use hz.Events.Processor.{GridObservationWindow, present, evaluate, reversal_of, excursion_of}

abbrev Detection : Type 0
Detection = Result CandidateError (Option EventCandidate)

All-present :
    (P : EventCandidate → Type 0) (found : List (Option EventCandidate))
    → All (λ o. (c : EventCandidate) → o ≡ some c → P c) found
    → All P (present found)
unfolding present
All-present P [] h = tt
All-present P (none ∷ found) (here, later) = All-present P found later
All-present P (some c ∷ found) (here, later) = (here c refl, All-present P found later)

-- The four results behind an evaluation that gives a list.
evaluated :
    (a b c d : Detection) (cs : List EventCandidate)
    → (do x ← a; y ← b; z ← c; u ← d; ok (present (x ∷ y ∷ z ∷ u ∷ []))) ≡ ok cs
    → (x : Option EventCandidate) × (y : Option EventCandidate) × (z : Option EventCandidate)
      × (u : Option EventCandidate) × (a ≡ ok x)
      × (b ≡ ok y)
      × (c ≡ ok z)
      × (d ≡ ok u)
      × (present (x ∷ y ∷ z ∷ u ∷ []) ≡ cs)
evaluated (ok x) (ok y) (ok z) (ok u) cs h = (x, y, z, u, refl, refl, refl, refl, ground arith)
evaluated (err e) b c d cs h = ground arith
evaluated (ok x) (err e) c d cs h = ground arith
evaluated (ok x) (ok y) (err e) d cs h = ground arith
evaluated (ok x) (ok y) (ok z) (err e) cs h = ground arith

module _ (platform : Platform) (w : GridObservationWindow) where
  -- the current leader differs from the previous one and has a fifth of the generation
  FromLeaders : EventCandidate → Type 0
  FromLeaders c =
      (leader : String × Float) × (leader_candidate platform leader.0 leader.1
          (platform.divide leader.1 (total_of platform w.current_generation_mw)) w.observed_at
          w.generation_source_record_ids
        ≡ c)
      × IsGrounded w.observed_at w.generation_source_record_ids c
      × LeaderChanges platform w.previous_generation_mw w.current_generation_mw leader

  -- something is generated, and wind, solar and hydro together have reached the threshold's share
  FromRenewables : EventCandidate → Type 0
  FromRenewables c =
      let total = total_of platform w.current_generation_mw in
      let renewables = renewables_of platform w.current_generation_mw in
      let share = platform.divide renewables total in
      (milestone_candidate platform renewables share milestone_threshold w.observed_at
          w.generation_source_record_ids
        ≡ c)
      × IsGrounded w.observed_at w.generation_source_record_ids c
      × (float_le total (float_whole 0) ≡ false)
      × (float_lt share milestone_threshold ≡ false)

  -- the net flow changed its sign, to 100 MW at least, over two samples at least
  FromFlows : EventCandidate → Type 0
  FromFlows c =
      (previous : Float) × (current : Float) × (w.previous_net_import_mw ≡ some previous)
      × (w.current_net_import_mw ≡ some current)
      × (reversal_candidate platform current w.observed_at w.interconnector_source_record_ids ≡ c)
      × IsGrounded w.observed_at w.interconnector_source_record_ids c
      × (crossed platform previous current ≡ true)
      × (float_lt (abs current) (float_whole 100) ≡ false)
      × (pos 2 ≤ℤ w.net_flow_sustained_samples)

  -- the frequency was observed outside the band
  FromFrequency : EventCandidate → Type 0
  FromFrequency c =
      (frequency : Float) × (w.frequency_hz ≡ some frequency)
      × (excursion_candidate platform frequency w.observed_at w.frequency_source_record_ids ≡ c)
      × IsGrounded w.observed_at w.frequency_source_record_ids c
      × (in_band platform frequency ≡ false)

  pub IsDetected : EventCandidate → Type 0
  IsDetected c = FromLeaders c ⊎ (FromRenewables c ⊎ (FromFlows c ⊎ FromFrequency c))

  reversal_of-FromFlows :
      (previous current : Option Float) (c : EventCandidate)
      → w.previous_net_import_mw ≡ previous
      → w.current_net_import_mw ≡ current
      → reversal_of platform previous current w ≡ ok (some c)
      → FromFlows c
  unfolding reversal_of FromFlows
  reversal_of-FromFlows none current c p q h = absurd (none_or_some (ok none) c refl h)
  reversal_of-FromFlows (some previous) none c p q h = absurd (none_or_some (ok none) c refl h)
  reversal_of-FromFlows (some previous) (some current) c p q h =
      let (same, grounded, crosses, large, sustained) =
        interconnector_reversal-some platform previous current _ _ _ c h in
      (previous, current, p, q, same, grounded, crosses, large, sustained)

  excursion_of-FromFrequency :
      (frequency : Option Float) (c : EventCandidate)
      → w.frequency_hz ≡ frequency
      → excursion_of platform frequency w ≡ ok (some c)
      → FromFrequency c
  unfolding excursion_of FromFrequency
  excursion_of-FromFrequency none c p h = absurd (none_or_some (ok none) c refl h)
  excursion_of-FromFrequency (some frequency) c p h =
      let (same, grounded, outside) = frequency_excursion-some platform frequency _ _ c h in
      (frequency, p, same, grounded, outside)

  -- An evaluation gives a candidate only for what was observed: a leader of the current mix that was
  -- not the previous leader and has a fifth of the total, renewables that have reached the threshold's
  -- share, a net flow that changed its sign, or a frequency outside the band. Each candidate stands at
  -- the window's time, cites the records of its own source, of which there is one at least, claims no
  -- reported cause, and meets the constraints of its constructor.
  pub evaluate-IsDetected :
      (cs : List EventCandidate) → evaluate platform w ≡ ok cs → All IsDetected cs
  unfolding evaluate IsDetected FromLeaders FromRenewables
  evaluate-IsDetected cs h =
      let change =
        generation_leader_change platform w.previous_generation_mw w.current_generation_mw
          w.observed_at w.generation_source_record_ids in
      let milestone =
        renewable_share_milestone platform w.current_generation_mw w.observed_at
          w.generation_source_record_ids milestone_threshold in
      let reversal = reversal_of platform w.previous_net_import_mw w.current_net_import_mw w in
      let excursion = excursion_of platform w.frequency_hz w in
      let (x, y, z, u, p, q, r, s, same) = evaluated change milestone reversal excursion cs h in
      subst (All IsDetected) same (
        All-present IsDetected (x ∷ y ∷ z ∷ u ∷ []) (
          (λ c e. inl (generation_leader_change-some platform _ _ _ _ c (p ∙ ap ok e))),
          (
            (λ c e. inr (inl (renewable_share_milestone-some platform _ _ _ _ c (q ∙ ap ok e)))),
            (
              (λ c e. inr (inr (inl (reversal_of-FromFlows _ _ c refl refl (r ∙ ap ok e))))),
              ((λ c e. inr (inr (inr (excursion_of-FromFrequency _ c refl (s ∙ ap ok e))))), tt),
            ),
          ),
        ))
