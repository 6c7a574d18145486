-- ===== src/Events/Rules/Conditions.antt =====
-- When each rule detects something, and what its candidate then is.
use mathlib.Core.Path.{subst}
use mathlib.Core.List.{Mem}
use hz.Prelude.{
  ℕ, ◌≡◌, refl, sym, ◌∙◌, String, true, false, Option, none, some, List, [], ◌∷◌, Result, ok, arith,
  Bool-cases, inl, inr, str_eq, ◌⊎◌,
}
use hz.Prelude.Int.{ℤ, pos, ◌≤ℤ◌}
use hz.Prelude.Dicts.{Dict}
use hz.Events.Models.{Float, EventCandidate, CandidateError, build_candidate}
use hz.Events.Rules.{
  Platform, emit, generation_leader_change, renewable_share_milestone, interconnector_reversal,
  frequency_excursion, leader_candidate, milestone_candidate, reversal_candidate,
  excursion_candidate, leader_from, leader_change_between, total_of, renewables_of, crossed, abs,
  in_band, float_lt, float_le, float_whole, minimum_share,
}
use hz.Events.Rules.Grounds.{
  IsGrounded, IsLeader, emit_inv, accepted-IsGrounded, leader_from-IsLeader,
}

-- Nothing was detected, or the rule goes on to the constructor of `c`.
pub Outcome : Result CandidateError (Option EventCandidate) → EventCandidate → Type 0 → Type 0
Outcome result c detected = (result ≡ ok none) ⊎ ((result ≡ emit c) × detected)

pub none_or_some :
    (result : Result CandidateError (Option EventCandidate)) (d : EventCandidate)
    → result ≡ ok none
    → result ≡ ok (some d)
    → ⊥
none_or_some result d h k = ground arith

-- What a rule returned was the candidate of its outcome, which the constructor accepted.
pub Outcome_some :
    (result : Result CandidateError (Option EventCandidate)) (c d : EventCandidate)
    (detected : Type 0)
    → Outcome result c detected
    → result ≡ ok (some d)
    → (c ≡ d) × (build_candidate c ≡ ok c) × detected
unfolding Outcome
Outcome_some result c d detected outcome h = elim outcome [
  | inl nothing ↦ absurd (none_or_some result d nothing h)
  | inr (goes, found) ↦ let (same, built) = emit_inv c d (sym goes ∙ h) in (same, built, found)
]

module _ (platform : Platform) where
  pub frequency_excursion_outcome :
      (frequency : Float) (t : ℕ) (ids : List String)
      → Outcome
          (frequency_excursion platform frequency t ids)
          (excursion_candidate platform frequency t ids)
          (in_band platform frequency ≡ false)
  unfolding Outcome frequency_excursion
  frequency_excursion_outcome frequency t ids = elim (Bool-cases (in_band platform frequency)) [
    | inl e ↦ rw e (inl refl)
    | inr e ↦ rw e (inr (refl, refl))
  ]

  -- the largest entries, after `if not previous or not current`
  pub LeaderChanges : Dict String Float → Dict String Float → String × Float → Type 0
  LeaderChanges previous current leader =
      IsLeader leader current
      × (former : String × Float) × IsLeader former previous
      × (str_eq former.0 leader.0 ≡ false)
      × (float_le (total_of platform current) (float_whole 0) ≡ false)
      × (float_lt (platform.divide leader.1 (total_of platform current)) minimum_share ≡ false)

  -- The leader is an entry of the current mix.
  pub LeaderChanges-Mem :
      (previous current : Dict String Float) (leader : String × Float)
      → LeaderChanges previous current leader
      → Mem leader current
  unfolding LeaderChanges IsLeader
  LeaderChanges-Mem previous current leader changes = changes.0.0

  pub renewable_share_milestone_outcome :
      (generation : Dict String Float) (t : ℕ) (ids : List String) (threshold : Float)
      → let total = total_of platform generation in
        let renewables = renewables_of platform generation in
        let share = platform.divide renewables total in
        Outcome
          (renewable_share_milestone platform generation t ids threshold)
          (milestone_candidate platform renewables share threshold t ids)
          ((float_le total (float_whole 0) ≡ false) × (float_lt share threshold ≡ false))
  unfolding Outcome renewable_share_milestone
  renewable_share_milestone_outcome generation t ids threshold = ground arith

  pub interconnector_reversal_outcome :
      (previous current : Float) (t : ℕ) (ids : List String) (samples : ℤ)
      → Outcome
          (interconnector_reversal platform previous current t ids samples)
          (reversal_candidate platform current t ids)
          ((crossed platform previous current ≡ true)
            × (float_lt (abs current) (float_whole 100) ≡ false)
            × (pos 2 ≤ℤ samples))
  unfolding Outcome interconnector_reversal
  interconnector_reversal_outcome previous current t ids samples = ground arith

  leader_candidate-IsGrounded :
      (leader : String) (output share : Float) (t : ℕ) (ids : List String)
      → let c = leader_candidate platform leader output share t ids in
        build_candidate c ≡ ok c → IsGrounded t ids c
  unfolding leader_candidate
  leader_candidate-IsGrounded leader output share t ids built =
      accepted-IsGrounded t ids _ refl refl ((refl, refl), ((refl, refl), ((refl, refl), tt))) built

  leader_outcome :
      (former leader : String × Float) (total : Float) (t : ℕ) (ids : List String)
      → Outcome
          (leader_change_between platform former leader total t ids)
          (leader_candidate platform leader.0 leader.1 (platform.divide leader.1 total) t ids)
          ((str_eq former.0 leader.0 ≡ false)
            × (float_le total (float_whole 0) ≡ false)
            × (float_lt (platform.divide leader.1 total) minimum_share ≡ false))
  unfolding Outcome leader_change_between
  leader_outcome former leader total t ids = ground arith

  -- The candidate names the leader of the current mix.
  pub generation_leader_change-some :
      (previous current : Dict String Float) (t : ℕ) (ids : List String) (d : EventCandidate)
      → generation_leader_change platform previous current t ids ≡ ok (some d)
      → (leader : String × Float) × (leader_candidate platform leader.0 leader.1
            (platform.divide leader.1 (total_of platform current))
            t
            ids
          ≡ d)
        × IsGrounded t ids d
        × LeaderChanges previous current leader
  unfolding generation_leader_change LeaderChanges
  generation_leader_change-some [] current t ids d h = absurd (none_or_some (ok none) d refl h)
  generation_leader_change-some (p ∷ previous) [] t ids d h =
      absurd (none_or_some (ok none) d refl h)
  generation_leader_change-some (p ∷ previous) (c ∷ current) t ids d h =
      let total = total_of platform (c ∷ current) in
      let former = leader_from p previous in
      let leader = leader_from c current in
      let candidate =
        leader_candidate platform leader.0 leader.1 (platform.divide leader.1 total) t ids in
      let (same, built, (differ, produces, share)) =
        Outcome_some _ candidate d _ (leader_outcome former leader total t ids) h in
      (
        leader,
        same,
        subst (IsGrounded t ids) same (
            leader_candidate-IsGrounded leader.0 leader.1 (platform.divide leader.1 total) t ids
              built),
        (
          leader_from-IsLeader c current,
          former,
          leader_from-IsLeader p previous,
          differ,
          produces,
          share,
        ),
      )

  pub renewable_share_milestone-some :
      (generation : Dict String Float) (t : ℕ) (ids : List String) (threshold : Float)
      (d : EventCandidate)
      → renewable_share_milestone platform generation t ids threshold ≡ ok (some d)
      → let total = total_of platform generation in
        let renewables = renewables_of platform generation in
        let share = platform.divide renewables total in
        (milestone_candidate platform renewables share threshold t ids ≡ d)
        × IsGrounded t ids d
        × (float_le total (float_whole 0) ≡ false)
        × (float_lt share threshold ≡ false)
  unfolding milestone_candidate
  renewable_share_milestone-some generation t ids threshold d h =
      let (same, built, (produces, share)) =
        Outcome_some _ _ d _ (renewable_share_milestone_outcome generation t ids threshold) h in
      (
        same,
        subst (IsGrounded t ids) same
            (accepted-IsGrounded t ids _ refl refl ((refl, refl), ((refl, refl), tt)) built),
        produces,
        share,
      )

  pub interconnector_reversal-some :
      (previous current : Float) (t : ℕ) (ids : List String) (samples : ℤ) (d : EventCandidate)
      → interconnector_reversal platform previous current t ids samples ≡ ok (some d)
      → (reversal_candidate platform current t ids ≡ d)
        × IsGrounded t ids d
        × (crossed platform previous current ≡ true)
        × (float_lt (abs current) (float_whole 100) ≡ false)
        × (pos 2 ≤ℤ samples)
  unfolding reversal_candidate
  interconnector_reversal-some previous current t ids samples d h =
      let (same, built, (crosses, large, sustained)) =
        Outcome_some _ _ d _ (interconnector_reversal_outcome previous current t ids samples) h in
      (
        same,
        subst (IsGrounded t ids) same
            (accepted-IsGrounded t ids _ refl refl ((refl, refl), ((refl, refl), tt)) built),
        crosses,
        large,
        sustained,
      )

  pub frequency_excursion-some :
      (frequency : Float) (t : ℕ) (ids : List String) (d : EventCandidate)
      → frequency_excursion platform frequency t ids ≡ ok (some d)
      → (excursion_candidate platform frequency t ids ≡ d)
        × IsGrounded t ids d
        × (in_band platform frequency ≡ false)
  unfolding excursion_candidate
  frequency_excursion-some frequency t ids d h =
      let (same, built, outside) =
        Outcome_some _ _ d _ (frequency_excursion_outcome frequency t ids) h in
      (
        same,
        subst (IsGrounded t ids) same
            (accepted-IsGrounded t ids _ refl refl ((refl, refl), ((refl, refl), tt)) built),
        outside,
      )
