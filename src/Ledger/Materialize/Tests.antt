-- ===== src/Ledger/Materialize/Tests.antt =====
-- A run of the ledger on concrete rows, and the witnesses of its theorems.
use hz.Prelude.{
  All, ℕ, ◌+◌, ◌≡◌, refl, String, Bool, true, false, not, Option, none, some, List, [], ◌∷◌, map,
  Result, ok, err, str_eq, Bool-cases, inl, inr, eq_iff,
}
use hz.Prelude.Int.{pos}
use hz.Prelude.Dicts.{Dict, lookup, insert}
use hz.Prelude.Groups.{append_at}
use hz.Prelude.Orders.{first_of, compare_ℤ}
use hz.Prelude.Sorting.{sorted, insert_sorted}
use hz.Time.{aware, hours}
use hz.Events.Models.{finite, Float, opened, updated, resolved, EventStatus}
use hz.Events.Revisions.{
  ReportedEventRevision, authoritative_notice, is_terminal, build_revision, field_constraints,
  validate_reported_state, falsy, ends_early, validate_successor, differs, field_deltas,
  field_delta, diff_revisions, validate_status_transition, is_allowed, build_delta, delta_eq,
  opt_value, delta_value,
}
use hz.Events.Revisions.History.{build_history_single}
use hz.Ledger.{
  null_or, get, aware_time, optional_aware_time, unless_blank, text_of, or_value_error,
  required_text, number_unless, optional_nonnegative_number, optional_positive_number, words_of,
  normalized_status, reported_planning_state, checksum, reported_notice_event_id, event_id,
  order_compare, prefix_of, source_order, LedgerError, integer, type_error, value_error, Value,
  null, text, float, time, Notice, Python,
}
use hz.Ledger.Revision.{
  status_text, as_value_error, finite_number, joined, same_flag, label_unless, reason_for,
  replacement_of, replacement_in, reported_replacement_event_id, status_with, lifecycle_status,
  changed_labels, material_reason, reason_after, check_previous, authority_for, first_some,
  read_times, read_numbers, read_revision, build_reported_notice_revision,
}
use hz.Ledger.Revision.Calm.{IsReadable, ok-Calm, err-Calm}
use hz.Ledger.Rows.{
  is_older, later_of, delta_statements, load_event, written_log, payload_with,
  source_notice_payload, StoredRevision, EventLog, EventLifecycleMaterializationOutcome, loaded,
  validate_stored,
}
use hz.Ledger.Materialize.{
  is_closed, delta_after, goes_back, attempt, write, after_attempt, unless_backwards, append_notice,
  append_notices, item_of, group_rows, append_groups, totals, materialize_groups,
  materialize_reported_notice_rows,
}
use hz.Ledger.Materialize.Laws.{IsLedger}
use hz.Ledger.Materialize.Runs.{IsMaterialized, materialize-IsMaterialized}

abbrev noon : ℕ
noon = 63871761600000000

-- a stand-in for the library, on values that need no stripping
abbrev shown : Value → String
shown (text s) = s
shown _ = ""

-- `float` of a text is a number or a `ValueError`; a time is no number
abbrev number_of : Value → Result LedgerError Float
number_of (float x) = ok x
number_of (text s) = err value_error
number_of (integer n) = ok (finite n)
number_of _ = err type_error

abbrev both_missing : {A : Type 0} → Option A → Value → Bool
both_missing none null = true
both_missing _ _ = false

abbrev python : Python
python = record {
  stripped = shown;
  casefold = λ s. s;
  joined_words = λ s. s;
  is_sha256 = λ s. not (str_eq s "");
  digest = λ s. s;
  float_of = number_of;
  same_number = both_missing;
  same_time = both_missing;
}

abbrev row_of : String → String → String → ℕ → Dict String Value → Notice
row_of external checksum status published more = record {
  fields =
      ("source_id", text "elexon")
      ∷ ("notice_kind", text "outage")
      ∷ ("external_id", text external)
      ∷ ("content_sha256", text checksum)
      ∷ ("event_status", text status)
      ∷ ("published_at", time (aware published))
      ∷ ("retrieved_at", time (aware noon))
      ∷ ("revision_key", text checksum)
      ∷ ("source_record_id", text checksum)
      ∷ more;
  evidence = none;
}

abbrev capacity : Value → Dict String Value
capacity value = ("unavailable_capacity_mw", value) ∷ []

-- the row behind the stored revision, a later one with a capacity, one whose capacity is no number,
-- one without its fields, and an event that opens and closes
abbrev rows : List Notice
rows =
    row_of "a" "s1" "active" noon []
    ∷ row_of "a" "s2" "active" (noon + hours 1) (capacity (float (finite (pos 7))))
    ∷ row_of "a" "s5" "active" (noon + hours 2) (capacity (text "many"))
    ∷ record { fields = []; evidence = none }
    ∷ row_of "b" "s4" "closed" (noon + hours 1) []
    ∷ row_of "b" "s3" "active" noon []
    ∷ []

rows-IsReadable : All (IsReadable python) rows
unfolding get lookup null_or
rows-IsReadable = (
  record { unavailable = tt; normal = tt },
  (
    record { unavailable = ok-Calm (finite (pos 7)); normal = tt },
    (
      record { unavailable = err-Calm; normal = tt },
      (
        record { unavailable = tt; normal = tt },
        (record { unavailable = tt; normal = tt }, (record { unavailable = tt; normal = tt }, tt)),
      ),
    ),
  ),
)

abbrev event_a : String
event_a = "evt_reported-notice:v1:elexon:outage:a"

abbrev first_revision : ReportedEventRevision
first_revision = record {
  event_id = event_a;
  revision = 1;
  status = opened;
  published_at = noon;
  effective_start = none;
  effective_end = none;
  authority = authoritative_notice;
  asset_id = none;
  asset_name = none;
  asset_identity_reliable = false;
  unavailable_mw = none;
  normal_capacity_mw = none;
  planned = none;
  reported_cause = none;
  evidence_checksum = "s1";
  material_reason = none;
  superseded_by_event_id = none;
  source_record_ids = "s1" ∷ [];
}

abbrev select : List String → List StoredRevision
select ids = record { event_id = event_a; revision = first_revision; source_order = none } ∷ []

abbrev counts :
    Result LedgerError (EventLifecycleMaterializationOutcome × List EventLog)
    → Option (EventLifecycleMaterializationOutcome × List (String × List EventStatus))
counts (err e) = none
counts (ok (outcome, logs)) =
    some (outcome, map (λ log. (log.event_id, map (λ r. r.status) log.history)) logs)

select_checked : (ids : List String) → validate_stored (select ids) ≡ ok tt
unfolding validate_stored as_value_error build_revision field_constraints validate_reported_state
    falsy ends_early validate_successor
select_checked ids = refl

select_valid : (ids : List String) (id : String) → IsLedger id (loaded (select ids) id).history
unfolding loaded load_event lookup
select_valid ids id = elim (Bool-cases (str_eq event_a id)) [
  | inl e ↦
      rw e (
        rw (← (eq_iff event_a id).0 e) (build_history_single event_a first_revision refl refl refl))
  | inr e ↦ rw e tt
]

run_counts :
    counts (materialize_reported_notice_rows python select rows)
    ≡ some (
      record { revisions = 3; deltas = 2; unchanged = 1; skipped = 2 },
      (event_a, opened ∷ updated ∷ [])
          ∷ ("evt_reported-notice:v1:elexon:outage:b", opened ∷ resolved ∷ [])
          ∷ [],
    )
unfolding null_or get aware_time optional_aware_time unless_blank text_of or_value_error
    required_text number_unless optional_nonnegative_number optional_positive_number words_of
    normalized_status reported_planning_state checksum reported_notice_event_id event_id
    order_compare prefix_of source_order status_text as_value_error finite_number joined same_flag
    label_unless reason_for replacement_of replacement_in reported_replacement_event_id status_with
    lifecycle_status changed_labels material_reason reason_after check_previous authority_for
    first_some read_times read_numbers read_revision build_reported_notice_revision is_older
    later_of is_closed delta_after delta_statements load_event loaded validate_stored written_log
    payload_with source_notice_payload goes_back attempt write after_attempt unless_backwards
    append_notice append_notices item_of group_rows append_groups totals materialize_groups
    materialize_reported_notice_rows lookup insert append_at sorted insert_sorted first_of compare_ℤ
    is_terminal build_revision field_constraints validate_reported_state falsy ends_early
    validate_successor differs field_deltas field_delta diff_revisions validate_status_transition
    is_allowed build_delta delta_eq opt_value delta_value
run_counts = refl

materialize-IsMaterialized_example :
    (outcome : EventLifecycleMaterializationOutcome) × (logs : List EventLog) × (ids : List String)
    × (materialize_reported_notice_rows python select rows ≡ ok (outcome, logs))
    × IsMaterialized (select ids) rows outcome logs
materialize-IsMaterialized_example =
    materialize-IsMaterialized python select select_checked select_valid rows rows-IsReadable
