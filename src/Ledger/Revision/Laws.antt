-- ===== src/Ledger/Revision/Laws.antt =====
-- What a revision that was made says of its source row, and that nothing but a `ValueError` is raised.
use hz.Prelude.{
  ltb, is_some, not, ◌&&◌, ◌==◌, if◌then◌else◌, ℕ, ◌≡◌, refl, sym, ap, ◌∙◌, String, false, Option,
  str_eq, Result, ok, err, raise_if, bind_inv, ok_unique, arith,
}
use hz.Events.Revisions.{ReportedEventRevision, RevisionError}
use hz.Events.Revisions.Validation.{build_revision_inv}
use hz.Events.Models.{EventStatus, opened, status_eq}
use hz.Ledger.{value_error, Notice, Python, required_text, event_id, checksum}
use hz.Ledger.Revision.{
  as_value_error, check_previous, lifecycle_status, finite_number, read_times, read_numbers,
  read_revision, build_reported_notice_revision,
}

pub as_value_error_inv :
    {A : Type 0} (r : Result RevisionError A) (v : A) → as_value_error r ≡ ok v → r ≡ ok v
unfolding as_value_error
as_value_error_inv (err e) v h = absurd (ground arith)
as_value_error_inv (ok w) v h = ground arith

-- What is known of a revision `r` that was made of a row.
pub record IsBuilt (python : Python) (notice : Notice) (number : ℕ) (r : ReportedEventRevision)
    : Type 0 where
  pub named : event_id python notice ≡ ok r.event_id
  pub numbered : r.revision ≡ number
  pub not_blank : str_eq r.event_id "" ≡ false
  pub record_id : String
  pub recorded : required_text python notice "source_record_id" ≡ ok record_id

read_revision_inv :
    (python : Python) (notice : Notice) (number : ℕ) (previous : Option ReportedEventRevision)
    (id : String) (state : EventStatus × Option String) (r : ReportedEventRevision)
    → read_revision python notice number previous id state ≡ ok r
    → (r.event_id ≡ id)
      × (r.revision ≡ number)
      × (record_id : String) × (required_text python notice "source_record_id" ≡ ok record_id)
unfolding read_revision
read_revision_inv python notice number previous id state r h =
    let (kind, e1, h1) = bind_inv (required_text python notice "notice_kind") _ r h in
    let (times, e2, h2) = bind_inv (read_times python notice) _ r h1 in
    let (numbers, e3, h3) = bind_inv (read_numbers python notice) _ r h2 in
    let (found, e4, h4) = bind_inv (checksum python notice) _ r h3 in
    let (record_id, recorded, h5) =
      bind_inv (required_text python notice "source_record_id") _ r h4 in
    let (mw, e5, h6) = bind_inv (finite_number numbers.0) _ r h5 in
    let (normal_mw, e6, h7) = bind_inv (finite_number numbers.1) _ r h6 in
    let same = ok_unique (ok _) _ r refl h7 in
    (ap (λ x. x.event_id) (sym same), ap (λ x. x.revision) (sym same), record_id, recorded)

pub build-IsBuilt :
    (python : Python) (notice : Notice) (number : ℕ) (previous : Option ReportedEventRevision)
    (r : ReportedEventRevision)
    → build_reported_notice_revision python notice number previous ≡ ok r
    → IsBuilt python notice number r
unfolding build_reported_notice_revision
build-IsBuilt python notice number previous r h =
    let (t1, g1, h1) = bind_inv (raise_if (ltb number 1) value_error) _ r h in
    let (t2, g2, h2) =
      bind_inv (raise_if (if is_some previous then number == 1 else not (number == 1)) value_error)
        _ r h1 in
    let (id, named, h3) = bind_inv (event_id python notice) _ r h2 in
    let (u1, e1, h4) = bind_inv (check_previous python previous id number) _ r h3 in
    let (state, e2, h5) = bind_inv (lifecycle_status python notice previous) _ r h4 in
    let (t3, g3, h6) =
      bind_inv (raise_if (not (is_some previous) && not (status_eq state.0 opened)) value_error) _ r
        h5 in
    let (made, e3, h7) = bind_inv (read_revision python notice number previous id state) _ r h6 in
    let (same, not_blank) = build_revision_inv made r (as_value_error_inv _ r h7) in
    let (same_id, same_number, record_id, recorded) =
      read_revision_inv python notice number previous id state made e3 in
    record {
      named = named ∙ ap ok (sym same_id ∙ ap (λ x. x.event_id) same);
      numbered = ap (λ x. x.revision) (sym same) ∙ same_number;
      not_blank = rw (← same) not_blank;
      record_id = record_id;
      recorded = recorded;
    }
