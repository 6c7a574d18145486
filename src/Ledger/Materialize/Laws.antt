-- ===== src/Ledger/Materialize/Laws.antt =====
-- One event's share of a run: its history stays valid and is only extended, and each row is counted.
use hz.Prelude.{
  ℕ, ◌+◌, ◌≡◌, refl, sym, ap, ◌∙◌, String, false, Option, none, some, List, [], ◌∷◌, ◌++◌, min,
  length, last_or, str_eq, ok, bind_inv, ok_unique,
}
use hz.Events.Revisions.{ReportedEventRevision, EventRevisionDelta, build_history, diff_revisions}
use hz.Events.Revisions.History.{history, build_history-append, build_history_single}
use hz.Ledger.{Notice, Python, get, required_text, aware_time, event_id, source_order}
use hz.Ledger.Revision.{as_value_error, build_reported_notice_revision}
use hz.Ledger.Revision.Laws.{IsBuilt, build-IsBuilt, as_value_error_inv}
use hz.Ledger.Revision.Calm.{Calm, IsReadable, build-Calm, bind-Calm, ok-Calm, as_value_error-Calm}
use hz.Ledger.Rows.{
  Item, Statement, revision_insert, delta_insert, delta_statements, source_notice_payload,
  payload_with, SourceNotice,
}
use hz.Ledger.Materialize.{last_of, delta_after, attempt}

-- A stored history is empty, or it is a valid history of its event.
abbrev pub IsLedger : String → List ReportedEventRevision → Type 0
IsLedger id [] = Unit
IsLedger id (r ∷ rest) = build_history (history id r rest) ≡ ok (history id r rest)

-- the inserted revisions, and the number of the inserted differences
abbrev pub inserted : List Statement → List ReportedEventRevision
inserted [] = []
inserted (revision_insert r sources payload ∷ rest) = r ∷ inserted rest
inserted (delta_insert d ∷ rest) = inserted rest

abbrev pub differences : List Statement → List EventRevisionDelta
differences [] = []
differences (revision_insert r sources payload ∷ rest) = differences rest
differences (delta_insert d ∷ rest) = d ∷ differences rest

pub inserted-append : (xs ys : List Statement) → inserted (xs ++ ys) ≡ inserted xs ++ inserted ys
inserted-append [] ys = refl
inserted-append (revision_insert r s p ∷ xs) ys = ap (λ l. r ∷ l) (inserted-append xs ys)
inserted-append (delta_insert d ∷ xs) ys = inserted-append xs ys

pub differences-append :
    (xs ys : List Statement) → differences (xs ++ ys) ≡ differences xs ++ differences ys
differences-append [] ys = refl
differences-append (revision_insert r s p ∷ xs) ys = differences-append xs ys
differences-append (delta_insert d ∷ xs) ys = ap (λ l. d ∷ l) (differences-append xs ys)

pub inserted-delta_statements : (d : Option EventRevisionDelta) → inserted (delta_statements d) ≡ []
unfolding delta_statements
inserted-delta_statements none = refl
inserted-delta_statements (some d) = refl

pub differences-delta_statements :
    (d : Option EventRevisionDelta)
    → length (differences (delta_statements d)) ≡ length (delta_statements d)
unfolding delta_statements
differences-delta_statements none = refl
differences-delta_statements (some d) = refl

-- one for the first revision of an event, which has no difference
abbrev pub opening : List ReportedEventRevision → ℕ → ℕ
opening [] n = min n 1
opening (r ∷ rest) n = 0

module _ (python : Python) where
  -- the item stands for a row of the event
  pub record IsItem (id : String) (item : Item) : Type 0 where
    pub named : event_id python item.row ≡ ok id
    pub ordered : source_order python item.row ≡ ok item.order
    pub readable : IsReadable python item.row

  attempt_inv :
      (row : Notice) (h : List ReportedEventRevision) (r : ReportedEventRevision)
      (d : Option EventRevisionDelta)
      → attempt python row h ≡ ok (r, d)
      → (build_reported_notice_revision python row (length h + 1) (last_of h) ≡ ok r)
        × (delta_after (last_of h) r ≡ ok d)
  unfolding attempt
  attempt_inv row h r d e =
      let (made, built, h1) =
        bind_inv (build_reported_notice_revision python row (length h + 1) (last_of h)) _ (r, d)
          e in
      let (found, differ, h2) = bind_inv (delta_after (last_of h) made) _ (r, d) h1 in
      let same = ok_unique (ok (made, found)) _ (r, d) refl h2 in
      (
        built ∙ ap (λ p. ok p.0) same,
        ap (λ p. delta_after (last_of h) p.0) (sym same) ∙ (differ ∙ ap (λ p. ok p.1) same),
      )

  extended-IsLedger :
      (id : String) (h : List ReportedEventRevision) (r : ReportedEventRevision)
      (d : Option EventRevisionDelta)
      → IsLedger id h
      → r.event_id ≡ id
      → str_eq r.event_id "" ≡ false
      → r.revision ≡ length h + 1
      → delta_after (last_of h) r ≡ ok d
      → IsLedger id (h ++ r ∷ []) × (length (delta_statements d) + opening h 1 ≡ 1)
  unfolding delta_after delta_statements
  extended-IsLedger id [] r d valid same named first differ =
      let no_delta = ok_unique (ok none) none d refl differ in
      (build_history_single id r (rw (← same) named) same first, rw (← no_delta) refl)
  extended-IsLedger id (s ∷ rest) r d valid same named number differ =
      let (delta, e, h) =
        bind_inv (as_value_error (diff_revisions (last_or s rest) r)) _ d differ in
      let has_delta = ok_unique (ok (some delta)) _ d refl h in
      (
        build_history-append id s r rest delta valid (as_value_error_inv _ delta e),
        rw (← has_delta) refl,
      )

  -- A revision that may be written extends a valid history, and has a difference unless it is first.
  pub attempt-IsLedger :
      (id : String) (row : Notice) (h : List ReportedEventRevision) (r : ReportedEventRevision)
      (d : Option EventRevisionDelta)
      → IsLedger id h
      → event_id python row ≡ ok id
      → attempt python row h ≡ ok (r, d)
      → IsLedger id (h ++ r ∷ [])
        × (length (delta_statements d) + opening h 1 ≡ 1)
        × IsBuilt python row (length h + 1) r
  attempt-IsLedger id row h r d valid named e =
      let (built, differ) = attempt_inv row h r d e in
      let b = build-IsBuilt python row (length h + 1) (last_of h) r built in
      let same = ok_unique _ r.event_id id b.named named in
      let (longer, counted) = extended-IsLedger id h r d valid same b.not_blank b.numbered differ in
      (longer, counted, b)

  delta_after-Calm :
      (p : Option ReportedEventRevision) (r : ReportedEventRevision) → Calm (delta_after p r)
  unfolding delta_after
  delta_after-Calm none r = ok-Calm none
  delta_after-Calm (some p) r =
      bind-Calm (as_value_error (diff_revisions p r)) _ (as_value_error-Calm (diff_revisions p r))
        (λ d. ok-Calm (some d))

  pub attempt-Calm :
      (row : Notice)
      → IsReadable python row
      → (h : List ReportedEventRevision) → Calm (attempt python row h)
  unfolding attempt
  attempt-Calm row readable h =
      bind-Calm (build_reported_notice_revision python row (length h + 1) (last_of h)) _
        (build-Calm python row (length h + 1) (last_of h) readable)
        (λ r.
          bind-Calm (delta_after (last_of h) r) _ (delta_after-Calm (last_of h) r)
            (λ d. ok-Calm (r, d)))

  -- what a row of an event has been asked for, when its order was made
  pub record IsRead (item : Item) : Type 0 where
    pub published : ℕ
    pub published_at : aware_time (get item.row.fields "published_at") ≡ ok published
    pub retrieved : ℕ
    pub retrieved_at : aware_time (get item.row.fields "retrieved_at") ≡ ok retrieved
    pub source_id : String
    pub source : required_text python item.row "source_id" ≡ ok source_id
    pub notice_kind : String
    pub kind : required_text python item.row "notice_kind" ≡ ok notice_kind
    pub external_id : String
    pub external : required_text python item.row "external_id" ≡ ok external_id
    pub revision_key : String
    pub key : required_text python item.row "revision_key" ≡ ok revision_key

  pub IsItem-IsRead : (id : String) (item : Item) → IsItem id item → IsRead item
  unfolding event_id source_order
  IsItem-IsRead id item h =
      let row = item.row in
      let (source_id, source, h1) = bind_inv (required_text python row "source_id") _ id h.named in
      let (notice_kind, kind, h2) = bind_inv (required_text python row "notice_kind") _ id h1 in
      let (external_id, external, h3) = bind_inv (required_text python row "external_id") _ id h2 in
      let (published, published_at, h4) =
        bind_inv (aware_time (get row.fields "published_at")) _ item.order h.ordered in
      let (retrieved, retrieved_at, h5) =
        bind_inv (aware_time (get row.fields "retrieved_at")) _ item.order h4 in
      let (revision_key, key, h6) =
        bind_inv (required_text python row "revision_key") _ item.order h5 in
      record {
        published = published;
        published_at = published_at;
        retrieved = retrieved;
        retrieved_at = retrieved_at;
        source_id = source_id;
        source = source;
        notice_kind = notice_kind;
        kind = kind;
        external_id = external_id;
        external = external;
        revision_key = revision_key;
        key = key;
      }

  pub payload_total :
      (item : Item) (record_id : String)
      → IsRead item
      → required_text python item.row "source_record_id" ≡ ok record_id
      → (p : SourceNotice) × (source_notice_payload python item.row ≡ ok p)
  unfolding source_notice_payload
  payload_total item record_id r recorded = (
    payload_with python item.row r.source_id record_id r.notice_kind r.external_id r.revision_key
        r.retrieved,
    rw (r.source, recorded, r.kind, r.external, r.key, r.retrieved_at) refl,
  )
