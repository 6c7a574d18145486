-- ===== src/Ledger/Materialize.antt =====
-- app/persistence/event_lifecycle.py: the append of source rows to the ledger. The answer of the
-- database to the query for the events' rows is an argument; what is executed is a list of
-- statements. The identifiers of inserted rows, which are functions of the event and the revision,
-- and the clause for rows that are there already are left out of the statements.
pub mod Laws
pub mod Steps
pub mod Runs
mod Tests
use Prim.Native.String.{compare as text_compare}
use hz.Prelude.{
  ℕ, zero, suc, ◌+◌, String, Bool, true, false, not, Option, none, some, List, [], ◌∷◌, ◌++◌, any,
  ltb, last_or, length, map, str_eq, if◌then◌else◌, Result, ok, err, raise_if, ◌>>=◌, ◌>>◌,
}
use hz.Prelude.Dicts.{Dict}
use hz.Prelude.Groups.{append_at}
use hz.Prelude.Orders.{is_le, is_lt}
use hz.Prelude.Sorting.{sorted}
use hz.Events.Revisions.{
  ReportedEventRevision, EventRevisionDelta, build_revision, diff_revisions, is_terminal,
}
use hz.Ledger.{
  LedgerError, type_error, value_error, Value, Notice, Python, SourceOrder, order_compare, get,
  text_of, required_text, aware_time, checksum, event_id, source_order,
}
use hz.Ledger.Rows.{
  SourceNotice, Statement, revision_insert, delta_insert, StoredRevision, EventLog,
  EventLifecycleMaterializationOutcome, Item, is_older, later_of, load_event, empty_log, loaded,
  validate_stored, payload_with, source_notice_payload, delta_statements, written_log,
}
use hz.Ledger.Revision.{as_value_error, build_reported_notice_revision}

abbrev pub Grouped : Type 0
Grouped = Dict String (List Item)

-- `history[-1] if history else None`
abbrev pub last_of : List ReportedEventRevision → Option ReportedEventRevision
last_of [] = none
last_of (r ∷ rest) = some (last_or r rest)

is_closed : Option ReportedEventRevision → Bool
is_closed none = false
is_closed (some previous) = is_terminal previous.status

delta_after :
    Option ReportedEventRevision
    → ReportedEventRevision
    → Result LedgerError (Option EventRevisionDelta)
delta_after none revision = ok none
delta_after (some previous) revision = do
  delta ← as_value_error (diff_revisions previous revision)
  ok (some delta)

abbrev pub skip : EventLog → EventLog
skip log = record log { skipped = log.skipped + 1 }

module _ (python : Python) where
  -- `_aware_time(notice, "published_at") < previous.published_at`, where there is a previous one
  goes_back : Notice → Option ReportedEventRevision → Result LedgerError Bool
  goes_back notice none = ok false
  goes_back notice (some previous) = do
    t ← aware_time (get notice.fields "published_at")
    ok (ltb t previous.published_at)

  -- the block under `try`
  pub attempt :
      Notice
      → List ReportedEventRevision
      → Result LedgerError (ReportedEventRevision × Option EventRevisionDelta)
  unfolding delta_after
  attempt notice history = do
    revision ← build_reported_notice_revision python notice (length history + 1) (last_of history)
    delta ← delta_after (last_of history) revision
    ok (revision, delta)

  -- the statements after it
  pub write :
      EventLog
      → Item
      → ReportedEventRevision
      → Option EventRevisionDelta
      → Result LedgerError EventLog
  unfolding written_log
  write log item revision delta = do
    source_id ← required_text python item.row "source_id"
    payload ← source_notice_payload python item.row
    ok (written_log log item revision delta (source_id ∷ []) payload)

  after_attempt :
      EventLog
      → Item
      → Result LedgerError (ReportedEventRevision × Option EventRevisionDelta)
      → Result LedgerError EventLog
  after_attempt log item (err type_error) = err type_error
  after_attempt log item (err value_error) = ok (skip log)
  after_attempt log item (ok (revision, delta)) = write log item revision delta

  unless_backwards : EventLog → Item → Bool → Result LedgerError EventLog
  unfolding after_attempt
  unless_backwards log item true = ok (skip log)
  unless_backwards log item false = after_attempt log item (attempt item.row log.history)

  -- one round of the loop over the notices of an event
  pub append_notice : EventLog → Item → Result LedgerError EventLog
  unfolding is_closed goes_back unless_backwards
  append_notice log item =
      let previous = last_of log.history in
      if any (str_eq item.checksum) log.seen_checksums
      then ok (record log { unchanged = log.unchanged + 1 })
      else if is_older item.order log.latest_source_order
      then ok (skip log)
      else if is_closed previous
      then ok (skip log)
      else (do backwards ← goes_back item.row previous; unless_backwards log item backwards)

  unfoldable pub append_notices : EventLog → List Item → Result LedgerError EventLog
  append_notices log [] = ok log
  append_notices log (item ∷ rest) = do next ← append_notice log item; append_notices next rest

  item_of : Notice → Result LedgerError (String × Item)
  item_of row = do
    id ← event_id python row
    found ← checksum python row
    order ← source_order python row
    ok (id, record { order = order; checksum = found; row = row })

  -- the loop over the rows
  unfoldable pub group_rows : List Notice → Grouped → ℕ → Grouped × ℕ
  unfolding item_of
  group_rows [] grouped skipped = (grouped, skipped)
  group_rows (row ∷ rest) grouped skipped = elim (item_of row) [
    | err e ↦ group_rows rest grouped (skipped + 1)
    | ok (id, item) ↦ group_rows rest (append_at str_eq id item grouped) skipped
  ]

  -- the loop over `sorted(grouped)`
  unfoldable pub append_groups : List StoredRevision → Grouped → Result LedgerError (List EventLog)
  append_groups stored [] = ok []
  append_groups stored ((id, items) ∷ rest) = do
    log ←
        append_notices (loaded stored id)
          (sorted (λ x y. is_le (order_compare x.order y.order)) items)
    others ← append_groups stored rest
    ok (log ∷ others)

abbrev id_not_after : String × List Item → String × List Item → Bool
id_not_after (a, xs) (b, ys) = is_le (text_compare a b)

abbrev event_ids_of : Grouped → List String
event_ids_of grouped = map (λ entry. entry.0) grouped

-- the counters
unfoldable pub totals : ℕ → List EventLog → EventLifecycleMaterializationOutcome
totals skipped [] = record { revisions = 0; deltas = 0; unchanged = 0; skipped = skipped }
totals skipped (log ∷ rest) =
    let others = totals skipped rest in
    record {
      revisions = log.revisions + others.revisions;
      deltas = log.deltas + others.deltas;
      unchanged = log.unchanged + others.unchanged;
      skipped = log.skipped + others.skipped;
    }

-- the run, once the rows are grouped
materialize_groups :
    Python
    → (List String → List StoredRevision)
    → Grouped
    → ℕ
    → Result LedgerError (EventLifecycleMaterializationOutcome × List EventLog)
materialize_groups python select [] skipped = ok (totals skipped [], [])
materialize_groups python select (first ∷ others) skipped = do
  let events = sorted id_not_after (first ∷ others)
  let stored = select (event_ids_of events)
  _ ← validate_stored stored
  logs ← append_groups python stored events
  ok (totals skipped logs, logs)

-- The outcome, and the logs of the events in the order in which they are written.
pub materialize_reported_notice_rows :
    Python
    → (List String → List StoredRevision)
    → List Notice
    → Result LedgerError (EventLifecycleMaterializationOutcome × List EventLog)
unfolding materialize_groups
materialize_reported_notice_rows python select rows =
    let (grouped, skipped) = group_rows python rows [] 0 in
    materialize_groups python select grouped skipped
