-- ===== src/Events/Revisions.antt =====
-- app/events/revisions.py: reported revisions of one event, their differences and their history.
-- An aware datetime is its instant, a number of microseconds since year 1 in UTC. A finite float is
-- the integer that it is a multiple of, in units of 2^-1074, so comparisons of it are exact.
-- The fields `model_version`, which hold one literal, are left out.
pub mod Validation
pub mod Diff
pub mod History
mod Tests
use hz.Prelude.{
  ℕ, suc, ◌+◌, String, Bool, true, false, ◌&&◌, ◌||◌, not, Option, none, some, List, [], ◌∷◌, ◌++◌,
  ltb, leb, ◌==◌, str_eq, opt_eq, is_some, length, last_or, any, filter, if◌then◌else◌, map, Result,
  ok, err, raise_if, ◌>>=◌, ◌>>◌,
}
use hz.Prelude.Int.{ℤ, pos, ltb_ℤ, eq_ℤ}
use hz.Events.Models.{EventStatus, opened, updated, resolved, superseded, withdrawn, status_eq}

pub data EventAuthority : Type 0 where
  system_warning authoritative_notice other_reported : EventAuthority

pub data RevisionField : Type 0 where
  unavailable_mw normal_capacity_mw effective_start effective_end : RevisionField
  status reported_cause evidence_checksum material_reason : RevisionField

-- What a constructor or a function of this file raises.
pub data RevisionError : Type 0 where
  field_constraint : RevisionError
  effective_end_precedes_start unidentified_asset first_not_open returns_to_open : RevisionError
  missing_material_reason missing_successor unexpected_successor : RevisionError
  other_event not_sequential published_backwards terminal_state invalid_transition : RevisionError
  no_changes foreign_revision first_not_one index_error : RevisionError

pub data DeltaValue : Type 0 where
  none_value : DeltaValue
  float_value : ℤ → DeltaValue
  datetime_value : ℕ → DeltaValue
  status_value : EventStatus → DeltaValue
  str_value : String → DeltaValue

pub record ReportedEventRevision : Type 0 where
  pub event_id : String
  pub revision : ℕ
  pub status : EventStatus
  pub published_at : ℕ
  pub effective_start : Option ℕ
  pub effective_end : Option ℕ
  pub authority : EventAuthority
  pub asset_id : Option String
  pub asset_name : Option String
  pub asset_identity_reliable : Bool
  pub unavailable_mw : Option ℤ
  pub normal_capacity_mw : Option ℤ
  pub planned : Option Bool
  pub reported_cause : Option String
  pub evidence_checksum : String
  pub material_reason : Option String
  pub superseded_by_event_id : Option String
  pub source_record_ids : List String

-- `Field(min_length=1)` on a text that may be absent.
abbrev pub non_empty : Option String → Bool
non_empty none = true
non_empty (some s) = not (str_eq s "")

-- The constraints that stand in the `Field(…)` declarations of `ReportedEventRevision`.
unfoldable pub field_constraints : ReportedEventRevision → Bool
field_constraints r =
    not (str_eq r.event_id "")
    && leb 1 r.revision
    && (elim r.unavailable_mw [ none ↦ true | some mw ↦ not (ltb_ℤ mw (pos 0)) ])
    && (elim r.normal_capacity_mw [ none ↦ true | some mw ↦ ltb_ℤ (pos 0) mw ])
    && non_empty r.reported_cause
    && not (str_eq r.evidence_checksum "")
    && non_empty r.material_reason
    && non_empty r.superseded_by_event_id
    && leb 1 (length r.source_record_ids)

-- `not self.asset_id`: absent, or the empty text.
unfoldable pub falsy : Option String → Bool
falsy none = true
falsy (some s) = str_eq s ""

-- `effective_end < effective_start`, where both are known.
unfoldable pub ends_early : Option ℕ → Option ℕ → Bool
ends_early (some start) (some end) = ltb end start
ends_early _ _ = false

unfoldable pub validate_successor : ReportedEventRevision → Result RevisionError (Unit {0})
validate_successor r =
    if status_eq r.status superseded
    then raise_if (not (is_some r.superseded_by_event_id)) missing_successor
    else raise_if (is_some r.superseded_by_event_id) unexpected_successor

unfoldable pub validate_reported_state : ReportedEventRevision → Result RevisionError (Unit {0})
unfolding falsy ends_early validate_successor
validate_reported_state r = do
  raise_if (ends_early r.effective_start r.effective_end) effective_end_precedes_start
  raise_if (r.asset_identity_reliable && falsy r.asset_id) unidentified_asset
  raise_if (r.revision == 1 && not (status_eq r.status opened)) first_not_open
  raise_if (ltb 1 r.revision && status_eq r.status opened) returns_to_open
  raise_if (ltb 1 r.revision && not (is_some r.material_reason)) missing_material_reason
  validate_successor r

-- `ReportedEventRevision(…)`: the field constraints first, then the validator of the whole.
unfoldable pub build_revision : ReportedEventRevision → Result RevisionError ReportedEventRevision
unfolding field_constraints validate_reported_state
build_revision r = do
  raise_if (not (field_constraints r)) field_constraint
  validate_reported_state r
  ok r

pub record RevisionFieldDelta : Type 0 where
  pub field : RevisionField
  pub before : DeltaValue
  pub after : DeltaValue

pub record EventRevisionDelta : Type 0 where
  pub event_id : String
  pub from_revision : ℕ
  pub to_revision : ℕ
  pub changes : List RevisionFieldDelta

-- `EventRevisionDelta(…)` with the constraints of its fields.
unfoldable pub build_delta : EventRevisionDelta → Result RevisionError EventRevisionDelta
build_delta d = do
  raise_if (not (leb 1 d.from_revision && leb 2 d.to_revision)) field_constraint
  raise_if (not (leb 1 (length d.changes))) no_changes
  ok d

unfoldable pub changed_fields : EventRevisionDelta → List RevisionField
changed_fields d = map (λ c. c.field) d.changes

-- `_delta_value(getattr(revision, attribute))`, for each pair of the tuple `fields`.
unfoldable pub opt_value {ℓ} : {A : Type ℓ} → (A → DeltaValue) → Option A → DeltaValue
opt_value f none = none_value
opt_value f (some a) = f a

unfoldable pub delta_value : RevisionField → ReportedEventRevision → DeltaValue
unfolding opt_value
delta_value RevisionField.unavailable_mw r = opt_value float_value r.unavailable_mw
delta_value RevisionField.normal_capacity_mw r = opt_value float_value r.normal_capacity_mw
delta_value RevisionField.effective_start r = opt_value datetime_value r.effective_start
delta_value RevisionField.effective_end r = opt_value datetime_value r.effective_end
delta_value RevisionField.status r = status_value r.status
delta_value RevisionField.reported_cause r = opt_value str_value r.reported_cause
delta_value RevisionField.evidence_checksum r = str_value r.evidence_checksum
delta_value RevisionField.material_reason r = opt_value str_value r.material_reason

-- `==` on two such values. Two values of one attribute have one type, or are `None`.
unfoldable pub delta_eq : DeltaValue → DeltaValue → Bool
delta_eq none_value none_value = true
delta_eq (float_value a) (float_value b) = eq_ℤ a b
delta_eq (datetime_value a) (datetime_value b) = a == b
delta_eq (status_value a) (status_value b) = status_eq a b
delta_eq (str_value a) (str_value b) = str_eq a b
delta_eq _ _ = false

-- The order of the tuple `fields`.
abbrev pub fields : List RevisionField
fields =
    RevisionField.unavailable_mw ∷ RevisionField.normal_capacity_mw ∷ RevisionField.effective_start
    ∷ RevisionField.effective_end ∷ RevisionField.status ∷ RevisionField.reported_cause
    ∷ RevisionField.evidence_checksum ∷ RevisionField.material_reason ∷ []

unfoldable pub field_delta :
    ReportedEventRevision → ReportedEventRevision → RevisionField → RevisionFieldDelta
field_delta previous current field = record {
  field = field;
  before = delta_value field previous;
  after = delta_value field current;
}

unfoldable pub differs : ReportedEventRevision → ReportedEventRevision → RevisionField → Bool
differs previous current field =
    not (delta_eq (delta_value field previous) (delta_value field current))

-- The generator expression of `diff_revisions` over the tuple.
unfoldable pub field_deltas :
    ReportedEventRevision → ReportedEventRevision → List RevisionField → List RevisionFieldDelta
unfolding field_delta differs
field_deltas previous current names =
    map (field_delta previous current) (filter (differs previous current) names)

unfoldable pub is_terminal : EventStatus → Bool
is_terminal resolved = true
is_terminal superseded = true
is_terminal withdrawn = true
is_terminal _ = false

unfoldable pub is_allowed : EventStatus → Bool
is_allowed opened = false
is_allowed _ = true

unfoldable pub validate_status_transition :
    EventStatus → EventStatus → Result RevisionError (Unit {0})
unfolding is_terminal is_allowed
validate_status_transition previous current = do
  raise_if (is_terminal previous) terminal_state
  raise_if (not (is_allowed current)) invalid_transition

unfoldable pub diff_revisions :
    ReportedEventRevision → ReportedEventRevision → Result RevisionError EventRevisionDelta
unfolding validate_status_transition
diff_revisions previous current = do
  raise_if (not (str_eq previous.event_id current.event_id)) other_event
  raise_if (not (current.revision == previous.revision + 1)) not_sequential
  raise_if (ltb current.published_at previous.published_at) published_backwards
  validate_status_transition previous.status current.status
  build_delta (record {
    event_id = current.event_id;
    from_revision = previous.revision;
    to_revision = current.revision;
    changes = field_deltas previous current fields;
  })

pub record EventLifecycleHistory : Type 0 where
  pub event_id : String
  pub revisions : List ReportedEventRevision

-- The loop over `zip(self.revisions, self.revisions[1:])`.
validate_pairs : List ReportedEventRevision → Result RevisionError (Unit {0})
validate_pairs [] = ok tt
validate_pairs (r ∷ []) = ok tt
validate_pairs (r ∷ s ∷ rest) = do _ ← diff_revisions r s; validate_pairs (s ∷ rest)

validate_first : List ReportedEventRevision → Result RevisionError (Unit {0})
validate_first [] = err field_constraint
validate_first (r ∷ rest) = raise_if (not (r.revision == 1)) first_not_one

-- `EventLifecycleHistory(…)`: the field constraints first, then `validate_revision_chain`.
pub build_history : EventLifecycleHistory → Result RevisionError EventLifecycleHistory
unfolding validate_first
build_history h = do
  raise_if (str_eq h.event_id "" || not (leb 1 (length h.revisions))) field_constraint
  raise_if (any (λ r. not (str_eq r.event_id h.event_id)) h.revisions) foreign_revision
  validate_first h.revisions
  validate_pairs h.revisions
  ok h

pub record RevisionAppendResult : Type 0 where
  pub lifecycle : EventLifecycleHistory
  pub delta : EventRevisionDelta

-- `revisions[-1]`. No history that is built has an empty tuple.
last_revision : List ReportedEventRevision → Result RevisionError ReportedEventRevision
last_revision [] = err index_error
last_revision (r ∷ rest) = ok (last_or r rest)

pub current : EventLifecycleHistory → Result RevisionError ReportedEventRevision
unfolding last_revision
current h = last_revision h.revisions

pub append_revision :
    EventLifecycleHistory → ReportedEventRevision → Result RevisionError RevisionAppendResult
append_revision lifecycle revision = do
  previous ← current lifecycle
  delta ← diff_revisions previous revision
  extended ← build_history (record lifecycle { revisions = lifecycle.revisions ++ revision ∷ [] })
  ok (record { lifecycle = extended; delta = delta })
