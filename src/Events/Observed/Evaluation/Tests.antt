-- ===== src/Events/Observed/Evaluation/Tests.antt =====
-- An evaluation of two components, and the witness of the theorem on its scopes.
use hz.Prelude.{◌≡◌, refl, String, none, [], ◌∷◌, map, All, Result, ok, err}
use hz.Prelude.Dicts.{values, lookup, insert}
use hz.Prelude.Sorting.{sorted, insert_sorted}
use hz.Events.Models.{build_candidate}
use hz.Events.Rules.{
  emit, leader_from, total_of, renewables_of, crossed, abs, in_band, at_least_zero, direction_of,
  position_of, leader_candidate, milestone_candidate, reversal_candidate, excursion_candidate,
  generation_leader_change, leader_change_between, renewable_share_milestone,
  interconnector_reversal, frequency_excursion, float_whole,
}
use hz.Events.Processor.{present}
use hz.Events.Processor.{evaluate as processor_evaluate}
use hz.Events.Examples.{fixed_point, busy}
use hz.Events.Observed.{
  generation, frequency, kind_value, ObservedError, duplicate_kind, observed_after_cutoff,
  not_a_digest, build_component, build_batch, repeated, ObservedEvidenceComponent,
  ObservedEvidenceBatch, Rendering, text_before, ObservedEventEvaluation, stateful_event_type,
  momentary_event_type,
}
use hz.Events.Observed.Copy.{safe_copy, facts_by_id}
use hz.Events.Observed.Evaluation.{
  evaluate, evaluate_all, evaluate_component, event_draft, drafts_of, scopes_of, scope_of,
  active_keys, draft_before,
}
use hz.Events.Observed.Evaluation.Scopes.{IsOfKind, IsCovered, evaluate-IsCovered}

abbrev digest_text : String
digest_text = "0123456789abcdef0123456789abcdef0123456789abcdef0123456789abcdef"

abbrev plain : Rendering
plain = record {
  numbers = fixed_point;
  grouped = λ digits x. "12,000";
  float_of = λ n. float_whole 0;
  spaced = λ s. s;
  capitalize = λ s. s;
  decimal_text = λ n. "1";
  evidence_digest = λ evidence. evidence.candidate.dedupe_key;
  batch_digest = λ material. "key";
}

abbrev mix : ObservedEvidenceComponent
mix = record {
  kind = generation;
  window = record busy { current_net_import_mw = none; frequency_hz = none };
  source_ids = "elexon" ∷ [];
  evidence_record_ids = "fuelinst-1" ∷ [];
  evidence_fingerprint = digest_text;
}

abbrev hertz : ObservedEvidenceComponent
hertz = record {
  kind = frequency;
  window = record busy { current_generation_mw = []; current_net_import_mw = none };
  source_ids = "elexon" ∷ [];
  evidence_record_ids = "freq-1" ∷ [];
  evidence_fingerprint = digest_text;
}

abbrev both : ObservedEvidenceBatch
both = record { cutoff_at = 63871761960000000; components = mix ∷ hertz ∷ [] }

both_built : build_batch both ≡ ok both
unfolding build_batch repeated kind_value
both_built = refl

twice_built :
    build_batch (record { cutoff_at = 63871761960000000; components = mix ∷ mix ∷ [] })
    ≡ err duplicate_kind
unfolding build_batch repeated kind_value
twice_built = refl

early_built :
    build_batch (record { cutoff_at = 63871761890000000; components = mix ∷ [] })
    ≡ err observed_after_cutoff
unfolding build_batch repeated kind_value
early_built = refl

short_digest : build_component (record mix { evidence_fingerprint = "abc" }) ≡ err not_a_digest
unfolding build_component
short_digest = refl

abbrev nothing_evaluated : ObservedEventEvaluation
nothing_evaluated = record { cutoff_at = 0; evaluation_key = ""; drafts = []; stateful_scopes = [] }

abbrev evaluation_of : Result ObservedError ObservedEventEvaluation → ObservedEventEvaluation
evaluation_of (ok e) = e
evaluation_of (err x) = nothing_evaluated

abbrev evaluation : ObservedEventEvaluation
evaluation = evaluation_of (evaluate plain both)

both-evaluation : evaluate plain both ≡ ok evaluation
unfolding evaluate evaluate_all evaluate_component event_draft drafts_of scopes_of scope_of
    active_keys stateful_event_type momentary_event_type safe_copy facts_by_id insert sorted
    insert_sorted text_before kind_value processor_evaluate generation_leader_change
    renewable_share_milestone interconnector_reversal frequency_excursion leader_change_between
    leader_from total_of renewables_of crossed abs in_band at_least_zero values lookup emit
    build_candidate present leader_candidate milestone_candidate reversal_candidate
    excursion_candidate direction_of position_of draft_before
both-evaluation = refl

both_titles :
    map (λ d. d.title) evaluation.drafts
    ≡ "Observed grid frequency was low" ∷ "wind became the largest observed generation category"
      ∷ "Renewables reached 0.50% of observed generation" ∷ []
unfolding evaluate evaluate_all evaluate_component event_draft drafts_of scopes_of scope_of
    active_keys stateful_event_type momentary_event_type safe_copy facts_by_id insert sorted
    insert_sorted text_before kind_value processor_evaluate generation_leader_change
    renewable_share_milestone interconnector_reversal frequency_excursion leader_change_between
    leader_from total_of renewables_of crossed abs in_band at_least_zero values lookup emit
    build_candidate present leader_candidate milestone_candidate reversal_candidate
    excursion_candidate direction_of position_of draft_before
both_titles = refl

evaluate-IsCovered_example : All (IsCovered plain evaluation.stateful_scopes) evaluation.drafts
unfolding IsOfKind
evaluate-IsCovered_example =
    evaluate-IsCovered plain refl both evaluation ((refl, refl), ((refl, refl), tt)) both-evaluation
