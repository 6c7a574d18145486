-- ===== src/Events/Observed.antt =====
-- app/events/observed.py: drafts of observed events, made of one evidence component at a time. Times
-- are instants, so the checks for a time zone hold by their types. The JSON texts and hashes of
-- checksums, and the texts of numbers, are the parameter `Rendering`. What is checksummed is kept
-- as a value.
pub mod Copy
pub mod Evaluation
use Prim.Native.String.{◌++◌ as text_append, count, compare as text_compare}
use Prim.Native.Nat.{Ordering}
use hz.Prelude.{
  ℕ, ◌+◌, ◌%◌, ◌^◌, String, Bool, true, false, ◌&&◌, ◌||◌, not, Option, none, some, List, [], ◌∷◌,
  ◌++◌, map, filter, any, length, ltb, leb, ◌==◌, str_eq, if◌then◌else◌, Result, ok, err, raise_if,
  ◌>>=◌, ◌>>◌,
}
use hz.Prelude.Int.{ℤ, pos, pos_part, neg_part}
use hz.Prelude.Dicts.{Dict, lookup, insert}
use hz.Prelude.Sorting.{sorted}
use hz.Events.Models.{
  Float, finite, FactValue, whole, decimal, text, flag, EvidenceFact, EventCandidate,
  CandidateError, EvidenceClass,
}
use hz.Events.Rules.{Platform, float_lt, float_whole, abs}
use hz.Events.Processor.{GridObservationWindow}
use hz.Events.Processor.{evaluate as processor_evaluate}

pub data EvidenceComponentKind : Type 0 where
  generation interconnectors frequency : EvidenceComponentKind

-- `.value`
unfoldable pub kind_value : EvidenceComponentKind → String
kind_value generation = "generation"
kind_value interconnectors = "interconnectors"
kind_value frequency = "frequency"

pub data ObservedError : Type 0 where
  no_source no_source_records not_a_digest : ObservedError
  duplicate_kind observed_after_cutoff : ObservedError
  not_text not_numeric unsupported_event_type : ObservedError
  candidate_error : CandidateError → ObservedError

pub record ObservedEvidenceComponent : Type 0 where
  pub kind : EvidenceComponentKind
  pub window : GridObservationWindow
  pub source_ids : List String
  pub evidence_record_ids : List String
  pub evidence_fingerprint : String

-- `ObservedEvidenceComponent(…)` with `__post_init__`
unfoldable pub build_component :
    ObservedEvidenceComponent → Result ObservedError ObservedEvidenceComponent
build_component c = do
  raise_if (not (leb 1 (length c.source_ids))) no_source
  raise_if (not (leb 1 (length c.evidence_record_ids))) no_source_records
  raise_if (not (count c.evidence_fingerprint == 64)) not_a_digest
  ok c

pub record ObservedEvidenceBatch : Type 0 where
  pub cutoff_at : ℕ
  pub components : List ObservedEvidenceComponent

-- `len(kinds) != len(set(kinds))`: some kind comes again later
unfoldable pub repeated : List String → Bool
repeated [] = false
repeated (k ∷ rest) = any (str_eq k) rest || repeated rest

-- `ObservedEvidenceBatch(…)` with `__post_init__`
unfoldable pub build_batch : ObservedEvidenceBatch → Result ObservedError ObservedEvidenceBatch
build_batch b = do
  raise_if (repeated (map (λ c. kind_value c.kind) b.components)) duplicate_kind
  raise_if (any (λ c. ltb b.cutoff_at c.window.observed_at) b.components) observed_after_cutoff
  ok b

-- The fields of `evidence` that are not constants.
pub record Evidence : Type 0 where
  pub evidence_class : EvidenceClass
  pub candidate : EventCandidate
  pub component : EvidenceComponentKind
  pub source_ids : List String
  pub source_record_ids : List String

pub record Rendering : Type 0 where
  pub numbers : Platform
  pub grouped : ℕ → Float → String
  pub float_of : ℤ → Float
  pub spaced : String → String
  pub capitalize : String → String
  pub decimal_text : ℕ → String
  pub evidence_digest : Evidence → String
  pub batch_digest : List (String × ℕ × String) → String

-- `sorted` on texts, and on keys of a time and a text
unfoldable pub text_before : String → String → Bool
text_before s t = elim (text_compare s t) [ Ordering.gt ↦ false | _ ↦ true ]

pub record ObservedEventDraft : Type 0 where
  pub candidate : EventCandidate
  pub component_kind : EvidenceComponentKind
  pub rule_version : String
  pub title : String
  pub summary : String
  pub evidence_checksum : String
  pub evidence : Evidence
  pub source_ids : List String

pub record StatefulEventScope : Type 0 where
  pub event_type : String
  pub observed_at : ℕ
  pub active_deterministic_keys : List String
  pub same_timestamp_only : Bool

pub record ObservedEventEvaluation : Type 0 where
  pub cutoff_at : ℕ
  pub evaluation_key : String
  pub drafts : List ObservedEventDraft
  pub stateful_scopes : List StatefulEventScope

unfoldable pub stateful_event_type : EvidenceComponentKind → Option String
stateful_event_type generation = some "renewable_share_milestone"
stateful_event_type interconnectors = none
stateful_event_type frequency = some "frequency_excursion"

unfoldable pub momentary_event_type : EvidenceComponentKind → Option String
momentary_event_type generation = some "generation_leader_change"
momentary_event_type interconnectors = some "energy_position_reversal"
momentary_event_type frequency = none
