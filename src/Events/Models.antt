-- ===== src/Events/Models.antt =====
-- app/events/models.py: the vocabulary of events, candidates and detected events. Times are instants.
use Prim.Native.String.{◌++◌ as text_append}
use hz.Prelude.{
  ℕ, String, Bool, true, false, ◌==◌, ◌&&◌, not, Option, List, any, leb, length, Result, ok,
  raise_if, ◌>>◌,
}
use hz.Prelude.Int.{ℤ}

pub data EvidenceClass : Type 0 where
  reported observed derived forecast : EvidenceClass

pub data Severity : Type 0 where
  info notable important : Severity

pub data Confidence : Type 0 where
  high medium low : Confidence

-- `OPEN` is `opened` here, because `open` is a word of the language.
pub data EventStatus : Type 0 where
  opened updated resolved superseded withdrawn : EventStatus

abbrev pub status_index : EventStatus → ℕ
status_index opened = 0
status_index updated = 1
status_index resolved = 2
status_index superseded = 3
status_index withdrawn = 4

-- `==` on members of the enumeration.
abbrev pub status_eq : EventStatus → EventStatus → Bool
status_eq s t = status_index s == status_index t

-- A float: `finite n` is `n` times 2 to the power -1074.
pub data Float : Type 0 where
  finite : ℤ → Float
  plus_infinity minus_infinity not_a_number : Float

pub data FactValue : Type 0 where
  whole : ℤ → FactValue
  decimal : Float → FactValue
  text : String → FactValue
  flag : Bool → FactValue

pub record EvidenceFact : Type 0 where
  pub fact_id : String
  pub metric : String
  pub label : String
  pub value : FactValue
  pub unit : Option String
  pub observed_at : ℕ
  pub source_record_ids : List String

-- `rule_version` is an integer from 1 on.
pub record EventCandidate : Type 0 where
  pub rule_id : String
  pub rule_version : ℕ
  pub event_type : String
  pub subject_type : String
  pub subject_id : Option String
  pub occurred_at : ℕ
  pub severity : Severity
  pub evidence_class : EvidenceClass
  pub confidence : Confidence
  pub confidence_reasons : List String
  pub dedupe_key : String
  pub facts : List EvidenceFact
  pub cause_reported : Bool

pub data CandidateError : Type 0 where
  candidate_field unsupported_cause : CandidateError

is_reported : EvidenceClass → Bool
is_reported reported = true
is_reported _ = false

-- `EventCandidate(…)` of facts that meet their own constraint, and its validator
unfoldable pub build_candidate : EventCandidate → Result CandidateError EventCandidate
unfolding is_reported
build_candidate c = do
  raise_if (not (leb 1 c.rule_version)) candidate_field
  raise_if (not (leb 1 (length c.confidence_reasons))) candidate_field
  raise_if (not (leb 1 (length c.facts))) candidate_field
  raise_if (any (λ f. not (leb 1 (length f.source_record_ids))) c.facts) candidate_field
  raise_if (c.cause_reported && not (is_reported c.evidence_class)) unsupported_cause
  ok c

-- `stable_id`; `digest` gives the first 20 characters of the hash.
unfoldable pub stable_id : (String → String) → EventCandidate → String
stable_id digest c = text_append "evt_" (digest c.dedupe_key)

pub record DetectedEvent : Type 0 where
  pub event_id : String
  pub revision : ℕ
  pub status : EventStatus
  pub candidate : EventCandidate
  pub opened_at : ℕ
  pub updated_at : ℕ
  pub resolved_at : Option ℕ
