-- ===== src/Ledger/Materialize/Runs.antt =====
-- A whole run: every row is counted once, and every event's ledger stays valid.
use mathlib.Core.Path.{subst}
use mathlib.Core.List.{append-nil}
use hz.Prelude.{
  ℕ, ◌+◌, ◌≡◌, refl, sym, ap, ◌∙◌, String, List, [], ◌∷◌, ◌++◌, length, length-append, str_eq,
  eq_iff, All, Result-cases, inl, inr, ok, bind_inv, ok_unique, arith, Bool-cases, Bool,
}
use hz.Prelude.Members.{length-perm}
use hz.Events.Revisions.{ReportedEventRevision}
use hz.Prelude.Groups.{append_at, items_of, items_of-append_at, items_of-sorted, Fit, append_at-Fit}
use hz.Prelude.Orders.{is_le}
use hz.Prelude.Sorting.{sorted, All-sorted, length-sorted}
use hz.Ledger.{Notice, Python, order_compare, event_id, checksum, source_order}
use hz.Ledger.Revision.Calm.{IsReadable}
use hz.Ledger.Rows.{
  EventLog, EventLifecycleMaterializationOutcome, Item, Statement, StoredRevision, empty_log,
  load_event, loaded, validate_stored,
}
use hz.Ledger.Materialize.{
  Grouped, item_of, group_rows, append_groups, id_not_after, event_ids_of, totals,
  materialize_groups, materialize_reported_notice_rows,
}
use hz.Ledger.Materialize.Laws.{
  IsLedger, IsItem, inserted, differences, inserted-append, differences-append, opening,
}
use hz.Ledger.Materialize.Steps.{IsSound, append_notices-IsSound}

-- nothing has been done for the event
record IsFresh (id : String) (log : EventLog) : Type 0 where
  same : log.event_id ≡ id
  statements : log.statements ≡ []
  revisions : log.revisions ≡ 0
  deltas : log.deltas ≡ 0
  unchanged : log.unchanged ≡ 0
  skipped : log.skipped ≡ 0

load_event-IsFresh :
    (id : String) (stored : List StoredRevision) (log : EventLog)
    → IsFresh id log
    → IsFresh id (load_event id stored log)
unfolding load_event
load_event-IsFresh id [] log h = h
load_event-IsFresh id (row ∷ rest) log h = elim (Bool-cases (str_eq row.event_id id)) [
  | inl e ↦ rw e (
      load_event-IsFresh id rest _ (record {
        same = h.same;
        statements = h.statements;
        revisions = h.revisions;
        deltas = h.deltas;
        unchanged = h.unchanged;
        skipped = h.skipped;
      }))
  | inr e ↦ rw e (load_event-IsFresh id rest log h)
]

loaded-IsFresh : (stored : List StoredRevision) (id : String) → IsFresh id (loaded stored id)
unfolding loaded
loaded-IsFresh stored id = load_event-IsFresh id stored (empty_log id) (record {
  same = refl;
  statements = refl;
  revisions = refl;
  deltas = refl;
  unchanged = refl;
  skipped = refl;
})

-- A new log is sound where the stored history is valid.
loaded-IsSound :
    (stored : List StoredRevision) (id : String)
    → IsLedger id (loaded stored id).history
    → IsSound (loaded stored id) (loaded stored id) 0
loaded-IsSound stored id h =
    let f = loaded-IsFresh stored id in
    record {
      same = refl;
      valid = rw (f.same) h;
      extended = rw (f.statements, append-nil (loaded stored id).history) refl;
      revised = rw (f.statements) f.revisions;
      differed = rw (f.statements) f.deltas;
      opened = opening_none (loaded stored id).history _ _ f.revisions f.deltas;
      every = omega (arith, f.revisions, f.unchanged, f.skipped);
    }
  where
    opening_none : (h : List ReportedEventRevision) (n m : ℕ) → n ≡ 0 → m ≡ 0 → m + opening h n ≡ n
    opening_none [] n m e f = ground arith
    opening_none (r ∷ rest) n m e f = ground arith

-- the log of a run is what the new log of its event has become
pub IsEventRun : List StoredRevision → EventLog → Type 0
IsEventRun stored log = (n : ℕ) × IsSound (loaded stored log.event_id) log n

-- the rows that are counted in the logs
worked : List EventLog → ℕ
worked [] = 0
worked (log ∷ rest) = log.revisions + log.unchanged + log.skipped + worked rest

-- what is executed, in order
pub executed : List EventLog → List Statement
executed [] = []
executed (log ∷ rest) = log.statements ++ executed rest

-- how many events get their first revision
pub first_revisions : List StoredRevision → List EventLog → ℕ
first_revisions stored [] = 0
first_revisions stored (log ∷ rest) =
    opening (loaded stored log.event_id).history log.revisions + first_revisions stored rest

module _ (python : Python) where
  item_of-IsItem :
      (row : Notice) (id : String) (item : Item)
      → IsReadable python row
      → item_of python row ≡ ok (id, item)
      → IsItem python id item
  unfolding item_of
  item_of-IsItem row id item readable h =
      let (found, named, h1) = bind_inv (event_id python row) _ (id, item) h in
      let (sum, c, h2) = bind_inv (checksum python row) _ (id, item) h1 in
      let (order, ordered, h3) = bind_inv (source_order python row) _ (id, item) h2 in
      let same = ok_unique (ok _) _ (id, item) refl h3 in
      record {
        named = ap (λ p. event_id python p.1.row) (sym same) ∙ (named ∙ ap (λ p. ok p.0) same);
        ordered =
            ap (λ p. source_order python p.1.row) (sym same)
            ∙ (ordered ∙ ap (λ p. ok p.1.order) same);
        readable = subst (λ p. IsReadable python p.1.row) same readable;
      }

  group_rows-Fit :
      (rows : List Notice) (grouped : Grouped) (skipped : ℕ)
      → All (IsReadable python) rows
      → Fit (IsItem python) grouped
      → Fit (IsItem python) (group_rows python rows grouped skipped).0
        × (length (items_of (group_rows python rows grouped skipped).0)
              + (group_rows python rows grouped skipped).1
            ≡ length (items_of grouped) + skipped + length rows)
  unfolding group_rows
  group_rows-Fit [] grouped skipped readable h = (h, omega arith)
  group_rows-Fit (row ∷ rest) grouped skipped (here, later) h =
      elim (Result-cases (item_of python row)) [
        | inl ((id, item), e) ↦
            let fits =
              append_at-Fit str_eq eq_iff (IsItem python) id item grouped
                (item_of-IsItem row id item here e) h in
            let (fit, counted) =
              group_rows-Fit rest (append_at str_eq id item grouped) skipped later fits in
            let one_more =
              length-perm (items_of-append_at str_eq id item grouped)
              ∙ length-append (items_of grouped) (item ∷ []) in
            rw (e, group_rows) (fit, omega (arith, counted, one_more))
        | inr (x, e) ↦
            let (fit, counted) = group_rows-Fit rest grouped (skipped + 1) later h in
            rw (e, group_rows) (fit, omega (arith, counted))
      ]

  module _ (stored : List StoredRevision)
      (valid : (id : String) → IsLedger id (loaded stored id).history) where
    append_groups_total :
        (grouped : Grouped)
        → Fit (IsItem python) grouped
        → (logs : List EventLog) × (append_groups python stored grouped ≡ ok logs)
          × All (IsEventRun stored) logs
          × (worked logs ≡ length (items_of grouped))
    unfolding append_groups IsEventRun worked
    append_groups_total [] h = ([], refl, tt, refl)
    append_groups_total ((id, items) ∷ rest) (here, later) =
        let order : Item → Item → Bool = λ x y. is_le (order_compare x.order y.order) in
        let start = loaded stored id in
        let (log, done, sound) =
          append_notices-IsSound python start start (sorted order items) 0
            (loaded-IsSound stored id (valid id))
            (rw ((loaded-IsFresh stored id).same)
              (All-sorted order (IsItem python id) items here)) in
        let (logs, others, sounds, total) = append_groups_total rest later in
        let same : log.event_id ≡ id = sound.same ∙ (loaded-IsFresh stored id).same in
        (
          log ∷ logs,
          rw (done, others) refl,
          ((0 + length (sorted order items), rw same sound), sounds),
          omega (
            arith,
            sound.every,
            length-sorted order items,
            total,
            length-append items (items_of rest),
          ),
        )

totals-worked :
    (skipped : ℕ) (logs : List EventLog)
    → (totals skipped logs).revisions
        + (totals skipped logs).unchanged
        + (totals skipped logs).skipped
      ≡ worked logs + skipped
unfolding totals worked
totals-worked skipped [] = refl
totals-worked skipped (log ∷ rest) = omega (arith, totals-worked skipped rest)

-- What a run says of itself, and of the ledger it has written.
pub record IsMaterialized (stored : List StoredRevision) (rows : List Notice)
    (outcome : EventLifecycleMaterializationOutcome) (logs : List EventLog) : Type 0 where
  pub events : All (IsEventRun stored) logs
  pub counted : outcome.revisions + outcome.unchanged + outcome.skipped ≡ length rows
  pub revised : outcome.revisions ≡ length (inserted (executed logs))
  pub differed : outcome.deltas ≡ length (differences (executed logs))
  pub opened : outcome.deltas + first_revisions stored logs ≡ outcome.revisions

totals-IsMaterialized :
    (stored : List StoredRevision) (skipped : ℕ) (logs : List EventLog)
    → All (IsEventRun stored) logs
    → ((totals skipped logs).revisions ≡ length (inserted (executed logs)))
      × ((totals skipped logs).deltas ≡ length (differences (executed logs)))
      × ((totals skipped logs).deltas + first_revisions stored logs
          ≡ (totals skipped logs).revisions)
unfolding totals executed first_revisions IsEventRun
totals-IsMaterialized stored skipped [] h = (refl, refl, refl)
totals-IsMaterialized stored skipped (log ∷ rest) ((n, sound), later) =
    let (revised, differed, opened) = totals-IsMaterialized stored skipped rest later in
    let all = executed rest in
    (
      omega (
        arith,
        sound.revised,
        revised,
        ap length (inserted-append log.statements all),
        length-append (inserted log.statements) (inserted all),
      ),
      omega (
        arith,
        sound.differed,
        differed,
        ap length (differences-append log.statements all),
        length-append (differences log.statements) (differences all),
      ),
      omega (arith, sound.opened, opened),
    )

module _ (python : Python) (select : List String → List StoredRevision)
    (checked : (ids : List String) → validate_stored (select ids) ≡ ok tt)
    (valid : (ids : List String) (id : String) → IsLedger id (loaded (select ids) id).history) where
  after_groups :
      (grouped : Grouped) (skipped : ℕ) (logs : List EventLog)
      → append_groups python
          (select (event_ids_of (sorted id_not_after grouped)))
          (sorted id_not_after grouped)
        ≡ ok logs
      → materialize_groups python select grouped skipped ≡ ok (totals skipped logs, logs)
  unfolding materialize_groups append_groups sorted
  after_groups [] skipped logs h =
      ap (λ l. ok (totals skipped l, l)) (ok_unique (ok []) [] logs refl h)
  after_groups (first ∷ others) skipped logs h =
      rw (checked (event_ids_of (sorted id_not_after (first ∷ others))), h) refl

  append_all :
      (rows : List Notice) (grouped : Grouped) (skipped : ℕ)
      → Fit (IsItem python) grouped
      → length (items_of grouped) + skipped ≡ length rows
      → (outcome : EventLifecycleMaterializationOutcome) × (logs : List EventLog)
        × (materialize_groups python select grouped skipped ≡ ok (outcome, logs))
        × IsMaterialized (select (event_ids_of (sorted id_not_after grouped))) rows outcome logs
  append_all rows grouped skipped fit counted =
      let events = sorted id_not_after grouped in
      let stored = select (event_ids_of events) in
      let (logs, done, sounds, total) =
        append_groups_total python stored (valid (event_ids_of events)) events
          (All-sorted id_not_after (λ entry. All (IsItem python entry.0) entry.1) grouped fit) in
      let (revised, differed, opened) = totals-IsMaterialized stored skipped logs sounds in
      (
        totals skipped logs,
        logs,
        after_groups grouped skipped logs done,
        record {
          events = sounds;
          counted = omega (
            arith,
            totals-worked skipped logs,
            total,
            counted,
            length-perm (items_of-sorted id_not_after grouped),
          );
          revised = revised;
          differed = differed;
          opened = opened;
        },
      )

  -- Where `float` raises nothing but a `ValueError` on the capacities of the rows, and the database
  -- answers with revisions that pass their checks and form valid histories, the run ends. Each row is
  -- written, known already, or skipped, and counted once. As many revisions and differences are inserted
  -- as the outcome says; each new revision but the first of an event has a difference. The history of an
  -- event is the stored one with the inserted revisions at its end, and is valid.
  pub materialize-IsMaterialized :
      (rows : List Notice)
      → All (IsReadable python) rows
      → (outcome : EventLifecycleMaterializationOutcome) × (logs : List EventLog) × (ids : List
          String)
        × (materialize_reported_notice_rows python select rows ≡ ok (outcome, logs))
        × IsMaterialized (select ids) rows outcome logs
  unfolding materialize_reported_notice_rows
  materialize-IsMaterialized rows readable =
      let (grouped, skipped) = group_rows python rows [] 0 in
      let (fit, counted) = group_rows-Fit python rows [] 0 readable tt in
      let (outcome, logs, done, good) =
        append_all rows grouped skipped fit (omega (arith, counted)) in
      (outcome, logs, event_ids_of (sorted id_not_after grouped), done, good)
