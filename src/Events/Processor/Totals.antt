-- ===== src/Events/Processor/Totals.antt =====
-- With source records to cite, an evaluation gives its list, and the list has what was observed.
use mathlib.Core.List.{Mem, mem-cons_self, mem-cons_of_mem}
use mathlib.Core.Option.{none-ne-some}
use hz.Prelude.{
  sym, ◌∙◌, ◌≤◌, ◌≡◌, refl, ◌⊎◌, inl, inr, true, ◌||◌, Option, none, some, List, [], ◌∷◌, length,
  Result, ok, arith,
}
use hz.Events.Models.{Float, EventCandidate, CandidateError}
use hz.Events.Rules.{
  generation_leader_change, Platform, renewable_share_milestone, milestone_candidate,
  reversal_candidate, excursion_candidate, total_of, renewables_of, in_band, float_lt, float_le,
  float_whole, milestone_threshold,
}
use hz.Events.Rules.Totals.{
  produces_nothing, no_change, no_milestone, Reports, no_reversal, frequency_excursion-Reports,
  interconnector_reversal-Reports, renewable_share_milestone-Reports,
  generation_leader_change_total,
}
use hz.Events.Processor.{GridObservationWindow, present, evaluate, reversal_of, excursion_of}

present-first :
    (o : Option EventCandidate) (rest : List (Option EventCandidate)) (c : EventCandidate)
    → o ≡ some c
    → Mem c (present (o ∷ rest))
unfolding present
present-first none rest c h = ground arith
present-first (some d) rest c h = let same : c ≡ d = ground arith in rw same mem-cons_self

present-later :
    (o : Option EventCandidate) (rest : List (Option EventCandidate)) (c : EventCandidate)
    → Mem c (present rest)
    → Mem c (present (o ∷ rest))
unfolding present
present-later none rest c h = h
present-later (some d) rest c h = mem-cons_of_mem d h

length-present : (found : List (Option EventCandidate)) → length (present found) ≤ length found
unfolding present
length-present [] = omega arith
length-present (none ∷ rest) = omega (arith, length-present rest)
length-present (some c ∷ rest) = omega (arith, length-present rest)

-- What a rule gave back: its candidate, unless `missing` holds.
given_back :
    (result : Result CandidateError (Option EventCandidate)) (c : EventCandidate) (missing : Type 0)
    → Reports result c missing
    → (o : Option EventCandidate) × (result ≡ ok o) × (missing ⊎ (o ≡ some c))
unfolding Reports
given_back result c missing reports = elim reports [
  | inl (same, m) ↦ (none, same, inl m)
  | inr same ↦ (some c, same, inr refl)
]

among :
    {Missing Found Reported : Type 0} → (Found → Reported) → Missing ⊎ Found → Missing ⊎ Reported
among keep (inl m) = inl m
among keep (inr found) = inr (keep found)

sourced :
    {o : Option Float} {a : Float} {Sources : Type 0} → o ≡ some a → (o ≡ none) ⊎ Sources → Sources
sourced {o} {a} known (inl unknown) = absurd (none-ne-some a (sym unknown ∙ known))
sourced known (inr sources) = sources

module _ (platform : Platform) (w : GridObservationWindow) where
  -- `Reported` holds of the milestone's candidate, unless too little of the mix is renewable.
  pub CoversRenewables : (EventCandidate → Type 0) → Type 0
  CoversRenewables Reported =
      let total = total_of platform w.current_generation_mw in
      let renewables = renewables_of platform w.current_generation_mw in
      let share = platform.divide renewables total in
      ((float_le total (float_whole 0) || float_lt share milestone_threshold) ≡ true)
      ⊎ Reported (
          milestone_candidate platform renewables share milestone_threshold w.observed_at
            w.generation_source_record_ids)

  -- likewise of the reversal's candidate, unless a flow is unknown or there is no reversal
  pub CoversFlows : (EventCandidate → Type 0) → Type 0
  CoversFlows Reported =
      (w.previous_net_import_mw ≡ none)
      ⊎ ((w.current_net_import_mw ≡ none)
          ⊎ ((previous : Float) × (current : Float) × (w.previous_net_import_mw ≡ some previous)
              × (w.current_net_import_mw ≡ some current)
              × ((no_reversal platform previous current w.net_flow_sustained_samples ≡ true)
                  ⊎ Reported (
                      reversal_candidate platform current w.observed_at
                        w.interconnector_source_record_ids))))

  -- likewise of the excursion's candidate, unless the frequency is unknown or in the band
  pub CoversFrequency : (EventCandidate → Type 0) → Type 0
  CoversFrequency Reported =
      (w.frequency_hz ≡ none)
      ⊎ ((frequency : Float) × (w.frequency_hz ≡ some frequency)
          × ((in_band platform frequency ≡ true)
              ⊎ Reported (
                  excursion_candidate platform frequency w.observed_at
                    w.frequency_source_record_ids)))

  module _ {P Q : EventCandidate → Type 0} (keep : (c : EventCandidate) → P c → Q c) where
    CoversRenewables_map : CoversRenewables P → CoversRenewables Q
    unfolding CoversRenewables
    CoversRenewables_map covers = among (keep _) covers

    CoversFlows_map : CoversFlows P → CoversFlows Q
    unfolding CoversFlows
    CoversFlows_map covers = elim covers [
      | inl unknown ↦ inl unknown
      | inr (inl unknown) ↦ inr (inl unknown)
      | inr (inr (previous, current, same_o, same_p, reported)) ↦
          inr (inr (previous, current, same_o, same_p, among (keep _) reported))
    ]

    CoversFrequency_map : CoversFrequency P → CoversFrequency Q
    unfolding CoversFrequency
    CoversFrequency_map covers = elim covers [
      | inl unknown ↦ inl unknown
      | inr (frequency, same, reported) ↦ inr (frequency, same, among (keep _) reported)
    ]

  excursion_of-Covers :
      (o : Option Float)
      → w.frequency_hz ≡ o
      → (w.frequency_hz ≡ none) ⊎ (1 ≤ length w.frequency_source_record_ids)
      → (u : Option EventCandidate) × (excursion_of platform o w ≡ ok u)
        × CoversFrequency (λ c. u ≡ some c)
  unfolding excursion_of CoversFrequency
  excursion_of-Covers none same h = (none, refl, inl same)
  excursion_of-Covers (some frequency) same h =
      let (u, gives, reports) =
        given_back _ _ _
          (frequency_excursion-Reports platform w.observed_at _ (sourced same h) frequency) in
      (u, gives, inr (frequency, same, reports))

  reversal_of-Covers :
      (o p : Option Float)
      → w.previous_net_import_mw ≡ o
      → w.current_net_import_mw ≡ p
      → (w.current_net_import_mw ≡ none) ⊎ (1 ≤ length w.interconnector_source_record_ids)
      → (z : Option EventCandidate) × (reversal_of platform o p w ≡ ok z)
        × CoversFlows (λ c. z ≡ some c)
  unfolding reversal_of CoversFlows
  reversal_of-Covers none p same_o same_p h = (none, refl, inl same_o)
  reversal_of-Covers (some previous) none same_o same_p h = (none, refl, inr (inl same_p))
  reversal_of-Covers (some previous) (some current) same_o same_p h =
      let (z, gives, reports) = given_back _ _ _ (
        interconnector_reversal-Reports platform w.observed_at _ (sourced same_p h) previous current
          w.net_flow_sustained_samples) in
      (z, gives, inr (inr (previous, current, same_o, same_p, reports)))

  milestone-Covers :
      platform.sum [] ≡ float_whole 0
      → (w.current_generation_mw ≡ []) ⊎ (1 ≤ length w.generation_source_record_ids)
      → (y : Option EventCandidate) × (renewable_share_milestone platform w.current_generation_mw
            w.observed_at w.generation_source_record_ids milestone_threshold
          ≡ ok y)
        × CoversRenewables (λ c. y ≡ some c)
  unfolding CoversRenewables
  milestone-Covers empty_sum h = elim h [
    | inl empty ↦
        let nothing = produces_nothing platform w.current_generation_mw empty_sum empty in
        (none, no_milestone platform _ _ _ _ nothing, inl (rw nothing refl))
    | inr sources ↦ given_back _ _ _ (
        renewable_share_milestone-Reports platform w.observed_at _ sources w.current_generation_mw
          milestone_threshold)
  ]

  change_total :
      (w.current_generation_mw ≡ []) ⊎ (1 ≤ length w.generation_source_record_ids)
      → (x : Option EventCandidate) × (generation_leader_change platform w.previous_generation_mw
            w.current_generation_mw w.observed_at w.generation_source_record_ids
          ≡ ok x)
  change_total h = elim h [
    | inl empty ↦ (none, no_change platform _ _ _ _ empty)
    | inr sources ↦
        generation_leader_change_total platform w.observed_at _ sources w.previous_generation_mw
          w.current_generation_mw
  ]

  -- Where nothing adds up to zero, and each source of a window names a record or has no current
  -- observation, the evaluation gives a list, of at most four candidates. The list has a milestone
  -- unless too little is renewable, a reversal unless a net flow is unknown or does not reverse, and an
  -- excursion unless the frequency is unknown or in the band.
  pub evaluate_total :
      platform.sum [] ≡ float_whole 0
      → (w.current_generation_mw ≡ []) ⊎ (1 ≤ length w.generation_source_record_ids)
      → (w.current_net_import_mw ≡ none) ⊎ (1 ≤ length w.interconnector_source_record_ids)
      → (w.frequency_hz ≡ none) ⊎ (1 ≤ length w.frequency_source_record_ids)
      → (cs : List EventCandidate) × (evaluate platform w ≡ ok cs)
        × (length cs ≤ 4)
        × CoversRenewables (λ c. Mem c cs)
        × CoversFlows (λ c. Mem c cs)
        × CoversFrequency (λ c. Mem c cs)
  unfolding evaluate
  evaluate_total empty_sum g i f =
      let (x, p) = change_total g in
      let (y, q, milestone) = milestone-Covers empty_sum g in
      let (z, r, reversal) = reversal_of-Covers _ _ refl refl i in
      let (u, s, excursion) = excursion_of-Covers _ refl f in
      let found = x ∷ y ∷ z ∷ u ∷ [] in
      (
        present found,
        rw (p, q, r, s) refl,
        length-present found,
        CoversRenewables_map (λ c e. present-later x _ c (present-first y _ c e)) milestone,
        CoversFlows_map (λ c e. present-later x _ c (present-later y _ c (present-first z _ c e)))
            reversal,
        CoversFrequency_map
            (λ c e.
              present-later x _ c
                (present-later y _ c (present-later z _ c (present-first u _ c e))))
            excursion,
      )
