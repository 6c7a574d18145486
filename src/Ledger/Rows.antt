-- ===== src/Ledger/Rows.antt =====
-- app/persistence/event_lifecycle.py: the rows of the ledger, and what is known of an event.
use hz.Prelude.{
  ℕ, ◌+◌, String, Bool, false, Option, none, some, List, [], ◌∷◌, ◌++◌, length, str_eq,
  if◌then◌else◌, Result, ok, ◌>>=◌,
}
use hz.Prelude.Dicts.{Dict}
use hz.Prelude.Orders.{is_lt}
use hz.Events.Revisions.{ReportedEventRevision, EventRevisionDelta, build_revision}
use hz.Ledger.{
  LedgerError, Value, Notice, Python, SourceOrder, order_compare, get, text_of, required_text,
  aware_time,
}
use hz.Ledger.Revision.{as_value_error}

-- the part `sourceNotice` of a row's payload
pub record SourceNotice : Type 0 where
  pub source_id : String
  pub source_record_id : String
  pub notice_kind : String
  pub external_id : String
  pub revision_key : String
  pub source_revision_number : Value
  pub source_event_status : Option String
  pub source_retrieved_at : ℕ
  pub unavailability_type : Option String
  pub affected_unit_eic : Option String
  pub available_capacity_mw : Value
  pub heading : Option String
  pub warning_type : Option String
  pub warning_text : Option String
  pub reported_evidence : Option (Dict String Value)

pub data Statement : Type 0 where
  -- the revision, its `source_ids` and its payload
  revision_insert : ReportedEventRevision → List String → SourceNotice → Statement
  delta_insert : EventRevisionDelta → Statement

-- A row of the ledger: its event, its revision as it is stored, and what `_stored_source_order` reads
-- of its payload.
pub record StoredRevision : Type 0 where
  pub event_id : String
  pub revision : ReportedEventRevision
  pub source_order : Option SourceOrder

-- What the loops keep for one event: the entries of the dictionaries under it, and its share of the
-- statements and of the counters.
pub record EventLog : Type 0 where
  pub event_id : String
  pub history : List ReportedEventRevision
  pub seen_checksums : List String
  pub latest_source_order : Option SourceOrder
  pub statements : List Statement
  pub revisions : ℕ
  pub deltas : ℕ
  pub unchanged : ℕ
  pub skipped : ℕ

pub record EventLifecycleMaterializationOutcome : Type 0 where
  pub revisions : ℕ
  pub deltas : ℕ
  pub unchanged : ℕ
  pub skipped : ℕ

-- `(order, checksum, row)`
pub record Item : Type 0 where
  pub order : SourceOrder
  pub checksum : String
  pub row : Notice

-- `order < latest_source_order.get(event_id, order)`
unfoldable pub is_older : SourceOrder → Option SourceOrder → Bool
is_older order none = false
is_older order (some latest) = is_lt (order_compare order latest)

unfoldable pub later_of : SourceOrder → Option SourceOrder → SourceOrder
later_of order none = order
later_of order (some latest) = if is_lt (order_compare order latest) then latest else order

unfoldable pub delta_statements : Option EventRevisionDelta → List Statement
delta_statements none = []
delta_statements (some delta) = delta_insert delta ∷ []

-- the loop over `existing_rows`, for one event
unfoldable pub load_event : String → List StoredRevision → EventLog → EventLog
unfolding later_of
load_event id [] log = log
load_event id (row ∷ rest) log =
    let found = record log {
      history = log.history ++ row.revision ∷ [];
      seen_checksums = row.revision.evidence_checksum ∷ log.seen_checksums;
      latest_source_order = elim row.source_order [
        | none ↦ log.latest_source_order
        | some order ↦ some (later_of order log.latest_source_order)
      ];
    } in
    load_event id rest (if str_eq row.event_id id then found else log)

abbrev pub empty_log : String → EventLog
empty_log id = record {
  event_id = id;
  history = [];
  seen_checksums = [];
  latest_source_order = none;
  statements = [];
  revisions = 0;
  deltas = 0;
  unchanged = 0;
  skipped = 0;
}

-- what is known of an event before its new rows
unfoldable pub loaded : List StoredRevision → String → EventLog
unfolding load_event
loaded stored id = load_event id stored (empty_log id)

-- `_domain_revision` of each row
unfoldable pub validate_stored : List StoredRevision → Result LedgerError (Unit {0})
validate_stored [] = ok tt
validate_stored (row ∷ rest) = do
  _ ← as_value_error (build_revision row.revision)
  validate_stored rest

-- the revision is written, with its difference if it has one
unfoldable pub written_log :
    EventLog
    → Item
    → ReportedEventRevision
    → Option EventRevisionDelta
    → List String
    → SourceNotice
    → EventLog
unfolding delta_statements
written_log log item revision delta sources payload = record log {
  history = log.history ++ revision ∷ [];
  seen_checksums = item.checksum ∷ log.seen_checksums;
  latest_source_order = some item.order;
  statements =
      log.statements ++ (revision_insert revision sources payload ∷ delta_statements delta);
  revisions = log.revisions + 1;
  deltas = log.deltas + length (delta_statements delta);
}

module _ (python : Python) where
  unfoldable pub payload_with :
      Notice → String → String → String → String → String → ℕ → SourceNotice
  payload_with notice source_id source_record_id notice_kind external_id revision_key retrieved_at =
      let read = get notice.fields in
      record {
        source_id = source_id;
        source_record_id = source_record_id;
        notice_kind = notice_kind;
        external_id = external_id;
        revision_key = revision_key;
        source_revision_number = read "revision_number";
        source_event_status = text_of python (read "event_status");
        source_retrieved_at = retrieved_at;
        unavailability_type = text_of python (read "unavailability_type");
        affected_unit_eic = text_of python (read "affected_unit_eic");
        available_capacity_mw = read "available_capacity_mw";
        heading = text_of python (read "heading");
        warning_type = text_of python (read "warning_type");
        warning_text = text_of python (read "warning_text");
        reported_evidence = notice.evidence;
      }

  unfoldable pub source_notice_payload : Notice → Result LedgerError SourceNotice
  unfolding payload_with
  source_notice_payload notice = do
    source_id ← required_text python notice "source_id"
    source_record_id ← required_text python notice "source_record_id"
    notice_kind ← required_text python notice "notice_kind"
    external_id ← required_text python notice "external_id"
    revision_key ← required_text python notice "revision_key"
    retrieved_at ← aware_time (get notice.fields "retrieved_at")
    ok (
        payload_with notice source_id source_record_id notice_kind external_id revision_key
          retrieved_at)
