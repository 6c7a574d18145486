-- ===== src/Events/Rules/Totals.antt =====
-- With a source record to cite no rule raises, and what it detects it reports.
use hz.Prelude.{
  ℕ, ◌≤◌, ◌||◌, not, if◌then◌else◌, ◌≡◌, refl, ◌⊎◌, inl, inr, String, Bool, true, false, Option,
  none, some, List, [], ◌∷◌, length, Result, ok, arith, str_eq,
}
use hz.Prelude.Int.{ℤ, pos, ltb_ℤ}
use hz.Prelude.Dicts.{Dict, values}
use hz.Events.Models.{Float, EventCandidate, CandidateError, build_candidate}
use hz.Events.Rules.{
  Platform, emit, generation_leader_change, renewable_share_milestone, interconnector_reversal,
  frequency_excursion, leader_candidate, milestone_candidate, reversal_candidate,
  excursion_candidate, leader_from, total_of, renewables_of, crossed, abs, in_band, float_lt,
  float_le, float_whole, minimum_share, leader_change_between,
}

-- The rule reports `c`, or it reports nothing because `missing` holds.
unfoldable pub Reports :
    Result CandidateError (Option EventCandidate) → EventCandidate → Type 0 → Type 0
Reports result c missing = ((result ≡ ok none) × missing) ⊎ (result ≡ ok (some c))

-- A rule that asks `quiet` before it goes on to the constructor of `c`.
emit-Reports :
    (quiet : Bool) (c : EventCandidate)
    → emit c ≡ ok (some c)
    → Reports (if quiet then ok none else emit c) c (quiet ≡ true)
unfolding Reports
emit-Reports true c h = inl (refl, refl)
emit-Reports false c h = inr h

-- Two tests before the constructor of `c`.
given :
    (quiet small : Bool) {c : EventCandidate}
    → emit c ≡ ok (some c)
    → (o : Option EventCandidate) × ((if quiet
          then ok none
          else (if small then ok none else emit c))
        ≡ ok o)
given true small h = (none, refl)
given false true h = (none, refl)
given false false {c} h = (some c, h)

module _ (platform : Platform) where
  -- what keeps a net flow from being a reversal
  pub no_reversal : Float → Float → ℤ → Bool
  no_reversal previous current samples =
      not (crossed platform previous current)
      || float_lt (abs current) (float_whole 100)
      || ltb_ℤ samples (pos 2)

module _ (platform : Platform) (t : ℕ) (ids : List String) (h : 1 ≤ length ids) where
  pub frequency_excursion-Reports :
      (frequency : Float)
      → Reports
          (frequency_excursion platform frequency t ids)
          (excursion_candidate platform frequency t ids)
          (in_band platform frequency ≡ true)
  unfolding frequency_excursion emit build_candidate excursion_candidate
  frequency_excursion-Reports frequency =
      emit-Reports _ (excursion_candidate platform frequency t ids) (ground arith)

  pub interconnector_reversal-Reports :
      (previous current : Float) (samples : ℤ)
      → Reports
          (interconnector_reversal platform previous current t ids samples)
          (reversal_candidate platform current t ids)
          (no_reversal platform previous current samples ≡ true)
  unfolding interconnector_reversal no_reversal emit build_candidate reversal_candidate
  interconnector_reversal-Reports previous current samples =
      emit-Reports _ (reversal_candidate platform current t ids) (ground arith)

  milestone-emit :
      (renewables share threshold : Float)
      → let c = milestone_candidate platform renewables share threshold t ids in
        emit c ≡ ok (some c)
  unfolding emit build_candidate milestone_candidate
  milestone-emit renewables share threshold = ground arith

  pub renewable_share_milestone-Reports :
      (generation : Dict String Float) (threshold : Float)
      → let total = total_of platform generation in
        let renewables = renewables_of platform generation in
        let share = platform.divide renewables total in
        Reports
          (renewable_share_milestone platform generation t ids threshold)
          (milestone_candidate platform renewables share threshold t ids)
          ((float_le total (float_whole 0) || float_lt share threshold) ≡ true)
  unfolding renewable_share_milestone
  renewable_share_milestone-Reports generation threshold =
      emit-Reports _ _ (milestone-emit _ _ threshold)

  leader-emit :
      (leader : String) (output share : Float)
      → let c = leader_candidate platform leader output share t ids in emit c ≡ ok (some c)
  unfolding emit build_candidate leader_candidate
  leader-emit leader output share = ground arith

  leader_change_between_total :
      (former leader : String × Float) (total : Float)
      → (o : Option EventCandidate) × (leader_change_between platform former leader total t ids
          ≡ ok o)
  unfolding leader_change_between
  leader_change_between_total former leader total =
      given (str_eq former.0 leader.0 || float_le total (float_whole 0))
        (float_lt (platform.divide leader.1 total) minimum_share) (leader-emit leader.0 leader.1 _)

  -- The rule on the leaders never raises.
  pub generation_leader_change_total :
      (previous current : Dict String Float)
      → (o : Option EventCandidate) × (generation_leader_change platform previous current t ids
          ≡ ok o)
  unfolding generation_leader_change
  generation_leader_change_total [] current = (none, refl)
  generation_leader_change_total (p ∷ previous) [] = (none, refl)
  generation_leader_change_total (p ∷ previous) (c ∷ current) =
      leader_change_between_total (leader_from p previous) (leader_from c current)
        (total_of platform (c ∷ current))

-- Where nothing adds up to zero, an empty mix has no leader to change and reaches no milestone.
pub produces_nothing :
    (platform : Platform) (mix : Dict String Float)
    → platform.sum [] ≡ float_whole 0
    → mix ≡ []
    → float_le (total_of platform mix) (float_whole 0) ≡ true
unfolding total_of values
produces_nothing platform mix empty_sum none_left = rw (none_left, empty_sum) refl

pub no_change :
    (platform : Platform) (previous mix : Dict String Float) (t : ℕ) (ids : List String)
    → mix ≡ []
    → generation_leader_change platform previous mix t ids ≡ ok none
unfolding generation_leader_change
no_change platform [] mix t ids empty = refl
no_change platform (p ∷ previous) mix t ids empty = rw empty refl

pub no_milestone :
    (platform : Platform) (mix : Dict String Float) (t : ℕ) (ids : List String) (threshold : Float)
    → float_le (total_of platform mix) (float_whole 0) ≡ true
    → renewable_share_milestone platform mix t ids threshold ≡ ok none
unfolding renewable_share_milestone
no_milestone platform mix t ids threshold nothing = rw nothing refl
