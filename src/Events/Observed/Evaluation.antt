-- ===== src/Events/Observed/Evaluation.antt =====
-- app/events/observed.py: the drafts and scopes of a batch. The processor runs on each component.
pub mod Scopes
mod Tests
use Prim.Native.String.{◌++◌ as text_append}
use hz.Prelude.{
  String, Bool, true, false, ◌&&◌, ◌||◌, Option, none, some, List, [], ◌∷◌, ◌++◌, map, filter, ltb,
  ◌==◌, str_eq, Result, ok, err, ◌>>=◌,
}
use hz.Prelude.Sorting.{sorted}
use hz.Events.Models.{EventCandidate}
use hz.Events.Processor.{evaluate as processor_evaluate}
use hz.Events.Observed.{
  kind_value, ObservedError, candidate_error, ObservedEvidenceComponent, ObservedEvidenceBatch,
  Evidence, Rendering, text_before, ObservedEventDraft, StatefulEventScope, ObservedEventEvaluation,
  stateful_event_type, momentary_event_type,
}
use hz.Events.Observed.Copy.{safe_copy}

infixr 45 ◌&◌
abbrev ◌&◌ : String → String → String
a & b = text_append a b

module _ (rendering : Rendering) where
  evidence_of : EventCandidate → ObservedEvidenceComponent → Evidence
  evidence_of candidate component = record {
    evidence_class = candidate.evidence_class;
    candidate = candidate;
    component = component.kind;
    source_ids = component.source_ids;
    source_record_ids = component.evidence_record_ids;
  }

  pub event_draft :
      EventCandidate → ObservedEvidenceComponent → Result ObservedError ObservedEventDraft
  unfolding evidence_of
  event_draft candidate component = do
    (title, summary) ← safe_copy rendering candidate
    let evidence = evidence_of candidate component
    ok (record {
      candidate = candidate;
      component_kind = component.kind;
      rule_version =
          "observed.window-v1."
          & candidate.rule_id
          & ".v"
          & rendering.decimal_text candidate.rule_version;
      title = title;
      summary = summary;
      evidence_checksum = rendering.evidence_digest evidence;
      evidence = evidence;
      source_ids = component.source_ids;
    })

  -- `[_event_draft(candidate, component) for candidate in candidates]`
  unfoldable pub drafts_of :
      ObservedEvidenceComponent
      → List EventCandidate
      → Result ObservedError (List ObservedEventDraft)
  drafts_of component [] = ok []
  drafts_of component (c ∷ rest) = do
    draft ← event_draft c component
    others ← drafts_of component rest
    ok (draft ∷ others)

  -- `tuple(sorted(…))`: the keys of the drafts of one event type
  unfoldable pub active_keys : String → List ObservedEventDraft → List String
  active_keys event_type drafts = sorted text_before (
      map (λ d. d.candidate.dedupe_key)
        (filter (λ d. str_eq d.candidate.event_type event_type) drafts))

  -- the scope that one of the two types of a component's kind asks for
  unfoldable pub scope_of :
      Bool
      → ObservedEvidenceComponent
      → List ObservedEventDraft
      → Option String
      → List StatefulEventScope
  scope_of momentary component drafts none = []
  scope_of momentary component drafts (some event_type) =
      record {
        event_type = event_type;
        observed_at = component.window.observed_at;
        active_deterministic_keys = active_keys event_type drafts;
        same_timestamp_only = momentary;
      }
      ∷ []

  unfoldable pub scopes_of :
      ObservedEvidenceComponent → List ObservedEventDraft → List StatefulEventScope
  scopes_of component drafts =
      scope_of false component drafts (stateful_event_type component.kind)
      ++ scope_of true component drafts (momentary_event_type component.kind)

  -- `self._processor.evaluate(…)`, whose error is one of a candidate's constructor
  candidates_of : ObservedEvidenceComponent → Result ObservedError (List EventCandidate)
  candidates_of component = elim (processor_evaluate rendering.numbers component.window) [
    | ok cs ↦ ok cs
    | err e ↦ err (candidate_error e)
  ]

  -- one turn of the loop
  pub evaluate_component :
      ObservedEvidenceComponent
      → Result ObservedError (List ObservedEventDraft × List StatefulEventScope)
  unfolding candidates_of
  evaluate_component component = do
    candidates ← candidates_of component
    drafts ← drafts_of component candidates
    ok (drafts, scopes_of component drafts)

  -- the loop, with what it appends to `drafts` and to `scopes`
  pub evaluate_all :
      List ObservedEvidenceComponent
      → Result ObservedError (List ObservedEventDraft × List StatefulEventScope)
  evaluate_all [] = ok ([], [])
  evaluate_all (c ∷ rest) = do
    (drafts, scopes) ← evaluate_component c
    (more_drafts, more_scopes) ← evaluate_all rest
    ok (drafts ++ more_drafts, scopes ++ more_scopes)

  kind_before : ObservedEvidenceComponent → ObservedEvidenceComponent → Bool
  kind_before x y = text_before (kind_value x.kind) (kind_value y.kind)

  evaluation_key : ObservedEvidenceBatch → String
  unfolding kind_before
  evaluation_key batch = rendering.batch_digest (
      map (λ c. (kind_value c.kind, c.window.observed_at, c.evidence_fingerprint))
        (sorted kind_before batch.components))

  draft_before : ObservedEventDraft → ObservedEventDraft → Bool
  draft_before x y =
      ltb x.candidate.occurred_at y.candidate.occurred_at
      || (x.candidate.occurred_at == y.candidate.occurred_at
          && text_before x.candidate.dedupe_key y.candidate.dedupe_key)

  pub evaluate : ObservedEvidenceBatch → Result ObservedError ObservedEventEvaluation
  unfolding evaluation_key draft_before
  evaluate batch = do
    (drafts, scopes) ← evaluate_all batch.components
    ok (record {
      cutoff_at = batch.cutoff_at;
      evaluation_key = evaluation_key batch;
      drafts = sorted draft_before drafts;
      stateful_scopes = scopes;
    })
