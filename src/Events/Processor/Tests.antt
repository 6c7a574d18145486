-- ===== src/Events/Processor/Tests.antt =====
-- Runs of the rules and the processor on concrete observations, and the witnesses of their theorems.
use hz.Prelude.{
  inr, ◌≤◌, ◌≡◌, refl, String, Bool, true, false, Option, some, List, [], ◌∷◌, ◌>>=◌, map, length,
  All, Result, ok, err, arith,
}
use hz.Events.Models.{not_a_number, EventCandidate, CandidateError, build_candidate}
use hz.Events.Rules.{
  float_whole, lower_hz, upper_hz, emit, leader_from, total_of, renewables_of, crossed, abs,
  in_band, at_least_zero, leader_candidate, milestone_candidate, reversal_candidate,
  excursion_candidate, generation_leader_change, leader_change_between, renewable_share_milestone,
  interconnector_reversal, frequency_excursion, reported_unavailability,
}
use hz.Prelude.Dicts.{values, lookup}
use mathlib.Core.List.{Mem}
use hz.Events.Examples.{fixed_point, busy}
use hz.Events.Processor.{present, evaluate, reversal_of, excursion_of}
use hz.Events.Processor.Grounds.{IsDetected, evaluate-IsDetected}
use hz.Events.Processor.Totals.{CoversRenewables, CoversFlows, CoversFrequency, evaluate_total}

abbrev candidates_of : Result CandidateError (List EventCandidate) → List EventCandidate
candidates_of (ok cs) = cs
candidates_of (err e) = []

abbrev found : List EventCandidate
found = candidates_of (evaluate fixed_point busy)

busy-found : evaluate fixed_point busy ≡ ok found
unfolding evaluate reversal_of excursion_of generation_leader_change renewable_share_milestone
    interconnector_reversal frequency_excursion leader_change_between leader_from total_of
    renewables_of crossed abs in_band at_least_zero values lookup emit build_candidate present
    leader_candidate milestone_candidate reversal_candidate excursion_candidate
busy-found = refl

found_rules :
    map (λ c. c.rule_id) found
    ≡ "generation.leader_change" ∷ "generation.renewable_share" ∷ "interconnector.net_reversal"
      ∷ "frequency.excursion" ∷ []
unfolding evaluate reversal_of excursion_of generation_leader_change renewable_share_milestone
    interconnector_reversal frequency_excursion leader_change_between leader_from total_of
    renewables_of crossed abs in_band at_least_zero values lookup emit build_candidate present
    leader_candidate milestone_candidate reversal_candidate excursion_candidate
found_rules = refl

-- a frequency inside the band, on its bounds too, is no event
in_band_example :
    map (in_band fixed_point) (lower_hz ∷ float_whole 50 ∷ upper_hz ∷ not_a_number ∷ [])
    ≡ true ∷ true ∷ true ∷ false ∷ []
unfolding in_band
in_band_example = refl

-- A reported cause that is the empty text is flagged, but is no fact.
abbrev with_cause : Option String → Result CandidateError (Bool × List String)
with_cause cause = do
  candidate ←
      reported_unavailability fixed_point "T_DRAXX-1" "Drax 1" (float_whole 600) false
        63871761900000000 ("remit-1" ∷ []) cause
  ok (candidate.cause_reported, map (λ f. f.fact_id) candidate.facts)

with_cause_empty : with_cause (some "") ≡ ok (true, "asset" ∷ "capacity" ∷ "planned" ∷ [])
unfolding reported_unavailability build_candidate
with_cause_empty = refl

with_cause_text :
    with_cause (some "trip") ≡ ok (true, "asset" ∷ "capacity" ∷ "planned" ∷ "cause" ∷ [])
unfolding reported_unavailability build_candidate
with_cause_text = refl

evaluate-IsDetected_example : All (IsDetected fixed_point busy) found
evaluate-IsDetected_example = evaluate-IsDetected fixed_point busy found busy-found

evaluate_total_example :
    (cs : List EventCandidate) × (evaluate fixed_point busy ≡ ok cs)
    × (length cs ≤ 4)
    × CoversRenewables fixed_point busy (λ c. Mem c cs)
    × CoversFlows fixed_point busy (λ c. Mem c cs)
    × CoversFrequency fixed_point busy (λ c. Mem c cs)
evaluate_total_example =
    evaluate_total fixed_point busy refl (inr (omega arith)) (inr (omega arith)) (inr (omega arith))
