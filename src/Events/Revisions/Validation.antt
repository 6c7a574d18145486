-- ===== src/Events/Revisions/Validation.antt =====
-- What the validator of one revision accepts.
use hz.Prelude.{
  ap, Bool, ◌&&◌, ◌⊎◌, not, le→leb, eq_iff, none, String, length, sym, ◌∙◌, inl, inr, Bool-cases,
  str_eq, ℕ, Option, false, ◌≤◌, ◌<◌, ◌≡◌, ◌≢◌, ◌↔◌, true, false, some, ok, arith, is_some, refl,
}
use hz.Prelude.Int.{ℤ, pos, ltb_ℤ, ◌≤ℤ◌}
use hz.Events.Models.{opened, superseded}
use hz.Events.Revisions.{
  ReportedEventRevision, build_revision, validate_reported_state, falsy, ends_early,
  field_constraints, non_empty,
}

-- The rules on the state of one revision, as a reader of the validator's messages would write them.
pub record IsReported (r : ReportedEventRevision) : Type 0 where
  pub ordered : (s e : ℕ) → r.effective_start ≡ some s → r.effective_end ≡ some e → s ≤ e
  pub identified :
      r.asset_identity_reliable ≡ true → (id : String) × (r.asset_id ≡ some id) × (id ≢ "")
  pub first_opened : r.revision ≡ 1 → r.status ≡ opened
  pub later_not_opened : 1 < r.revision → r.status ≢ opened
  pub later_reasoned : 1 < r.revision → is_some r.material_reason ≡ true
  pub successor_named : r.status ≡ superseded → is_some r.superseded_by_event_id ≡ true
  pub successor_only : is_some r.superseded_by_event_id ≡ true → r.status ≡ superseded

not_empty : (s : String) → s ≢ "" → str_eq s "" ≡ false
not_empty s h = elim (Bool-cases (str_eq s "")) [
  | inl e ↦ absurd (h ((eq_iff s "").0 e))
  | inr e ↦ e
]

falsy-false :
    (text : Option String) → falsy text ≡ false → (s : String) × (text ≡ some s) × (s ≢ "")
unfolding falsy
falsy-false none h = absurd (ground arith)
falsy-false (some s) h = (s, refl, λ e. ground (arith, eq_iff s ""))

unidentified :
    (reliable : Bool) (text : Option String)
    → (reliable ≡ true → (s : String) × (text ≡ some s) × (s ≢ ""))
    → (reliable && falsy text) ≡ false
unfolding falsy
unidentified false text h = refl
unidentified true text h = let (s, same, filled) = h refl in rw (same, not_empty s filled) refl

validate-IsReported : (r : ReportedEventRevision) → validate_reported_state r ≡ ok tt → IsReported r
unfolding validate_reported_state
validate-IsReported r h = record {
  ordered = λ s e p q. ground arith;
  identified = λ p. falsy-false r.asset_id (ground arith);
  first_opened = λ p. ground arith;
  later_not_opened = λ p q. ground arith;
  later_reasoned = λ p. ground arith;
  successor_named = λ p. ground arith;
  successor_only = λ p. ground arith;
}

ends_early_of_ordered :
    (start end : Option ℕ)
    → ((s e : ℕ) → start ≡ some s → end ≡ some e → s ≤ e)
    → ends_early start end ≡ false
unfolding ends_early
ends_early_of_ordered (some s) (some e) h = let le = h s e refl refl in ground arith
ends_early_of_ordered _ _ h = refl

IsReported-validate : (r : ReportedEventRevision) → IsReported r → validate_reported_state r ≡ ok tt
unfolding validate_reported_state
IsReported-validate r h =
    let early = ends_early_of_ordered r.effective_start r.effective_end h.ordered in
    let named = unidentified r.asset_identity_reliable r.asset_id h.identified in ground arith

-- The bounds and lengths that the declarations of the fields ask for.
pub record HasFields (r : ReportedEventRevision) : Type 0 where
  pub event_named : r.event_id ≢ ""
  pub numbered : 1 ≤ r.revision
  pub unavailable : (mw : ℤ) → r.unavailable_mw ≡ some mw → pos 0 ≤ℤ mw
  pub normal : (mw : ℤ) → r.normal_capacity_mw ≡ some mw → pos 1 ≤ℤ mw
  pub cause : r.reported_cause ≢ some ""
  pub checksum : r.evidence_checksum ≢ ""
  pub reason : r.material_reason ≢ some ""
  pub successor : r.superseded_by_event_id ≢ some ""
  pub recorded : 1 ≤ length r.source_record_ids

non_empty_iff : (text : Option String) → (non_empty text ≡ true) ↔ (text ≢ some "")
non_empty_iff none = (λ h e. ground arith, λ h. refl)
non_empty_iff (some s) =
    (λ h e. ground (arith, eq_iff s ""), λ h. filled (Bool-cases (str_eq s "")) h)
  where
    filled :
        (str_eq s "" ≡ true) ⊎ (str_eq s "" ≡ false) → some s ≢ some "" → not (str_eq s "") ≡ true
    filled (inl e) h = absurd (h (ap some ((eq_iff s "").0 e)))
    filled (inr e) h = rw e refl

constraints-HasFields : (r : ReportedEventRevision) → field_constraints r ≡ true → HasFields r
unfolding field_constraints
constraints-HasFields r h = record {
  event_named = λ e. ground (arith, eq_iff r.event_id "");
  numbered = ground arith;
  unavailable = λ mw e. ground arith;
  normal = λ mw e. ground arith;
  cause = (non_empty_iff r.reported_cause).0 (ground arith);
  checksum = λ e. ground (arith, eq_iff r.evidence_checksum "");
  reason = (non_empty_iff r.material_reason).0 (ground arith);
  successor = (non_empty_iff r.superseded_by_event_id).0 (ground arith);
  recorded = ground arith;
}

not_negative :
    (number : Option ℤ)
    → ((mw : ℤ) → number ≡ some mw → pos 0 ≤ℤ mw)
    → (elim number [ none ↦ true | some mw ↦ not (ltb_ℤ mw (pos 0)) ]) ≡ true
not_negative none h = refl
not_negative (some mw) h = let low = h mw refl in ground arith

all_positive :
    (number : Option ℤ)
    → ((mw : ℤ) → number ≡ some mw → pos 1 ≤ℤ mw)
    → (elim number [ none ↦ true | some mw ↦ ltb_ℤ (pos 0) mw ]) ≡ true
all_positive none h = refl
all_positive (some mw) h = let low = h mw refl in ground arith

HasFields-constraints : (r : ReportedEventRevision) → HasFields r → field_constraints r ≡ true
unfolding field_constraints
HasFields-constraints r h =
    rw
      (
        not_empty r.event_id h.event_named,
        le→leb 1 r.revision h.numbered,
        not_negative r.unavailable_mw h.unavailable,
        all_positive r.normal_capacity_mw h.normal,
        (non_empty_iff r.reported_cause).1 h.cause,
        not_empty r.evidence_checksum h.checksum,
        (non_empty_iff r.material_reason).1 h.reason,
        (non_empty_iff r.superseded_by_event_id).1 h.successor,
        le→leb 1 (length r.source_record_ids) h.recorded,
      )
      refl

constraints : (r : ReportedEventRevision) → build_revision r ≡ ok r → field_constraints r ≡ true
unfolding build_revision
constraints r h = ground arith

validated :
    (r : ReportedEventRevision) → build_revision r ≡ ok r → validate_reported_state r ≡ ok tt
unfolding build_revision
validated r h = ground arith

from_checks :
    (r : ReportedEventRevision)
    → field_constraints r ≡ true
    → validate_reported_state r ≡ ok tt
    → build_revision r ≡ ok r
unfolding build_revision
from_checks r h k = ground arith

-- A revision that is built is the one that was given, and its event id is not empty.
pub build_revision_inv :
    (r built : ReportedEventRevision)
    → build_revision r ≡ ok built
    → (r ≡ built) × (str_eq r.event_id "" ≡ false)
unfolding build_revision field_constraints
build_revision_inv r built h = (ground arith, ground arith)

-- A revision is built exactly when its fields keep their bounds and lengths and its state meets the
-- rules, and what is built is the revision itself.
pub build_revision_iff :
    (r built : ReportedEventRevision)
    → (build_revision r ≡ ok built) ↔ ((built ≡ r) × HasFields r × IsReported r)
unfolding build_revision
build_revision_iff r built = (forward, backward)
  where
    accepted : build_revision r ≡ ok built → build_revision r ≡ ok r
    accepted h = h ∙ ap ok (sym (build_revision_inv r built h).0)

    forward : build_revision r ≡ ok built → (built ≡ r) × HasFields r × IsReported r
    forward h = (
      sym (build_revision_inv r built h).0,
      constraints-HasFields r (constraints r (accepted h)),
      validate-IsReported r (validated r (accepted h)),
    )

    backward : (built ≡ r) × HasFields r × IsReported r → build_revision r ≡ ok built
    backward (same, fields, reported) =
        from_checks r (HasFields-constraints r fields) (IsReported-validate r reported)
        ∙ ap ok (sym same)
