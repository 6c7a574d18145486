-- ===== src/Ledger/Revision.antt =====
-- app/persistence/event_lifecycle.py: the revision that a source row reports.
pub mod Calm
pub mod Laws
use Prim.Native.String.{◌++◌ as text_append}
use hz.Prelude.{
  ℕ, suc, ◌+◌, String, Bool, true, false, ◌&&◌, not, Option, none, some, List, [], ◌∷◌, ◌++◌, any,
  ltb, ◌==◌, is_some, str_eq, opt_eq, if◌then◌else◌, Result, ok, err, raise_if, ◌>>=◌, ◌>>◌,
}
use hz.Prelude.Int.{ℤ}
use hz.Prelude.Dicts.{Dict}
use hz.Events.Models.{
  EventStatus, opened, updated, resolved, superseded, withdrawn, status_eq, Float, finite,
}
use hz.Events.Revisions.{
  ReportedEventRevision, RevisionError, build_revision, is_terminal, system_warning,
  authoritative_notice, EventAuthority,
}
use hz.Ledger.{
  LedgerError, value_error, Value, Notice, Python, get, text_of, required_text, aware_time,
  optional_aware_time, optional_nonnegative_number, optional_positive_number, normalized_status,
  reported_planning_state, checksum, reported_notice_event_id, event_id,
}

unfoldable pub status_text : EventStatus → String
status_text opened = "open"
status_text updated = "updated"
status_text resolved = "resolved"
status_text superseded = "superseded"
status_text withdrawn = "withdrawn"

abbrev pub withdrawn_source_statuses : List String
withdrawn_source_statuses = "cancelled" ∷ "canceled" ∷ "dismissed" ∷ "inactive" ∷ "withdrawn" ∷ []

abbrev pub resolved_source_statuses : List String
resolved_source_statuses = "closed" ∷ "complete" ∷ "completed" ∷ "ended" ∷ "resolved" ∷ []

abbrev pub superseded_source_statuses : List String
superseded_source_statuses = "replaced" ∷ "superseded" ∷ []

-- what a failed constraint or check of app/events/revisions.py raises is a `ValueError`
unfoldable pub as_value_error {κ} : {A : Type κ} → Result RevisionError A → Result LedgerError A
as_value_error (err e) = err value_error
as_value_error (ok value) = ok value

-- `allow_inf_nan=False`
unfoldable pub finite_number : Option Float → Result LedgerError (Option ℤ)
finite_number none = ok none
finite_number (some (finite n)) = ok (some n)
finite_number (some not_finite) = err value_error

unfoldable pub joined : List String → String
joined [] = ""
joined (s ∷ []) = s
joined (s ∷ rest) = text_append s (text_append ", " (joined rest))

unfoldable pub same_flag : Bool → Bool → Bool
same_flag true b = b
same_flag false b = not b

unfoldable pub label_unless : Bool → String → List String
label_unless true label = []
label_unless false label = label ∷ []

unfoldable pub reason_for : List String → String
unfolding joined
reason_for [] = "Source published a corrected notice revision"
reason_for (label ∷ rest) = text_append "Source revised " (joined (label ∷ rest))

module _ (python : Python) where
  unfoldable pub replacement_of :
      Notice → Option String → Option String → Result LedgerError (Option String)
  replacement_of notice (some explicit) external = ok (some explicit)
  replacement_of notice none none = ok none
  replacement_of notice none (some external_id) = do
    source_id ← required_text python notice "source_id"
    notice_kind ← required_text python notice "notice_kind"
    ok (some (reported_notice_event_id python source_id notice_kind external_id))

  unfoldable pub replacement_in :
      Notice → Option (Dict String Value) → Result LedgerError (Option String)
  unfolding replacement_of
  replacement_in notice none = ok none
  replacement_in notice (some evidence) =
      replacement_of notice (text_of python (get evidence "supersededByEventId"))
        (text_of python (get evidence "supersededByExternalId"))

  unfoldable pub reported_replacement_event_id : Notice → Result LedgerError (Option String)
  unfolding replacement_in
  reported_replacement_event_id notice = replacement_in notice notice.evidence

  unfoldable pub status_with : Option String → Result LedgerError (EventStatus × Option String)
  status_with none = err value_error
  status_with (some replacement) = ok (superseded, some replacement)

  unfoldable pub lifecycle_status :
      Notice → Option ReportedEventRevision → Result LedgerError (EventStatus × Option String)
  unfolding reported_replacement_event_id status_with
  lifecycle_status notice previous =
      let normalized = normalized_status python (get notice.fields "event_status") in
      if any (str_eq normalized) withdrawn_source_statuses
      then ok (withdrawn, none)
      else if any (str_eq normalized) resolved_source_statuses
      then ok (resolved, none)
      else if any (str_eq normalized) superseded_source_statuses
      then (do replacement ← reported_replacement_event_id notice; status_with replacement)
      else ok (if is_some previous then updated else opened, none)

  unfoldable pub changed_labels : ReportedEventRevision → Notice → List String
  unfolding label_unless same_flag
  changed_labels previous notice =
      let read = get notice.fields in
      label_unless (python.same_number previous.unavailable_mw (read "unavailable_capacity_mw"))
        "capacity"
      ++ label_unless (python.same_number previous.normal_capacity_mw (read "normal_capacity_mw"))
          "normal capacity"
      ++ label_unless (python.same_time previous.effective_start (read "event_start")) "start time"
      ++ label_unless (python.same_time previous.effective_end (read "event_end")) "end time"
      ++ label_unless
          (opt_eq str_eq previous.reported_cause (text_of python (read "reported_cause")))
          "reported cause"
      ++ label_unless
          (opt_eq same_flag previous.planned
            (reported_planning_state python (read "unavailability_type")))
          "planning classification"

  unfoldable pub material_reason : ReportedEventRevision → Notice → EventStatus → String
  unfolding status_text reason_for changed_labels
  material_reason previous notice status =
      if is_terminal status
      then text_append "Source marked the notice " (status_text status)
      else reason_for (changed_labels previous notice)

  unfoldable pub reason_after : Option ReportedEventRevision → Notice → EventStatus → Option String
  unfolding material_reason
  reason_after none notice status = none
  reason_after (some previous) notice status = some (material_reason previous notice status)

  unfoldable pub check_previous :
      Option ReportedEventRevision → String → ℕ → Result LedgerError (Unit {0})
  check_previous none id revision_number = ok tt
  check_previous (some previous) id revision_number = do
    raise_if (not (str_eq previous.event_id id)) value_error
    raise_if (not (previous.revision + 1 == revision_number)) value_error

  unfoldable pub authority_for : String → EventAuthority
  authority_for notice_kind =
      if str_eq notice_kind "system_warning" then system_warning else authoritative_notice

  -- `_text(…) or _text(…)`: a text that is not blank is true
  unfoldable pub first_some : Option String → Option String → Option String
  first_some none later = later
  first_some (some s) later = some s

  unfoldable pub read_times : Notice → Result LedgerError (ℕ × Option ℕ × Option ℕ)
  read_times notice = do
    published_at ← aware_time (get notice.fields "published_at")
    effective_start ← optional_aware_time (get notice.fields "event_start")
    effective_end ← optional_aware_time (get notice.fields "event_end")
    ok (published_at, effective_start, effective_end)

  unfoldable pub read_numbers : Notice → Result LedgerError (Option Float × Option Float)
  read_numbers notice = do
    unavailable ← optional_nonnegative_number python (get notice.fields "unavailable_capacity_mw")
    normal ← optional_positive_number python (get notice.fields "normal_capacity_mw")
    ok (unavailable, normal)

  -- the fields of the revision, up to the check that the numbers are finite
  unfoldable pub read_revision :
      Notice
      → ℕ
      → Option ReportedEventRevision
      → String
      → EventStatus × Option String
      → Result LedgerError ReportedEventRevision
  unfolding reason_after authority_for first_some finite_number read_times read_numbers
  read_revision notice revision_number previous id (status, superseded_by) = do
    let read = get notice.fields
    notice_kind ← required_text python notice "notice_kind"
    let asset_id =
        first_some (text_of python (read "asset_id")) (text_of python (read "affected_unit_eic"))
    (published_at, effective_start, effective_end) ← read_times notice
    (unavailable, normal) ← read_numbers notice
    evidence_checksum ← checksum python notice
    source_record_id ← required_text python notice "source_record_id"
    unavailable_mw ← finite_number unavailable
    normal_capacity_mw ← finite_number normal
    ok (record {
      event_id = id;
      revision = revision_number;
      status = status;
      published_at = published_at;
      effective_start = effective_start;
      effective_end = effective_end;
      authority = authority_for notice_kind;
      asset_id = asset_id;
      asset_name = text_of python (read "affected_unit");
      asset_identity_reliable = is_some asset_id;
      unavailable_mw = unavailable_mw;
      normal_capacity_mw = normal_capacity_mw;
      planned = reported_planning_state python (read "unavailability_type");
      reported_cause = text_of python (read "reported_cause");
      evidence_checksum = evidence_checksum;
      material_reason = reason_after previous notice status;
      superseded_by_event_id = superseded_by;
      source_record_ids = source_record_id ∷ [];
    })

  unfoldable pub build_reported_notice_revision :
      Notice → ℕ → Option ReportedEventRevision → Result LedgerError ReportedEventRevision
  unfolding check_previous read_revision as_value_error
  build_reported_notice_revision notice revision_number previous = do
    raise_if (ltb revision_number 1) value_error
    raise_if (if is_some previous then revision_number == 1 else not (revision_number == 1))
        value_error
    id ← event_id python notice
    check_previous previous id revision_number
    state ← lifecycle_status notice previous
    raise_if (not (is_some previous) && not (status_eq state.0 opened)) value_error
    revision ← read_revision notice revision_number previous id state
    as_value_error (build_revision revision)
