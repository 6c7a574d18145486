-- ===== src/Events/Revisions/Diff.antt =====
-- What `diff_revisions` accepts and reports.
use hz.Prelude.{
  ℕ, ◌+◌, ◌≤◌, ◌≡◌, ◌≢◌, ◌↔◌, Bool, true, false, Option, none, some, List, [], ◌∷◌, ok, arith,
  eq_iff, refl, length, leb, any, if◌then◌else◌, ◌&&◌, Bool-cases, inl, inr, ◌==◌,
}
use hz.Prelude.Int.{eq_of_parts}
use hz.Events.Models.{opened}
use hz.Events.Revisions.{
  ReportedEventRevision, diff_revisions, build_delta, is_terminal, EventRevisionDelta, field_deltas,
  fields, differs, RevisionField, DeltaValue, delta_value, delta_eq, none_value, float_value,
  datetime_value, status_value, str_value, RevisionFieldDelta,
}

delta_eq_iff : (a b : DeltaValue) → (delta_eq a b ≡ true) ↔ (a ≡ b)
unfolding delta_eq
delta_eq_iff none_value none_value = ground arith
delta_eq_iff (float_value a) (float_value b) = ground (arith, eq_of_parts a b)
delta_eq_iff (datetime_value a) (datetime_value b) = ground arith
delta_eq_iff (status_value a) (status_value b) = ground arith
delta_eq_iff (str_value a) (str_value b) = ground (arith, eq_iff a b)
delta_eq_iff _ _ = ground arith

any→Σ {ℓ} : {A : Type ℓ} (t : A → Bool) (xs : List A) → any t xs ≡ true → (x : A) × (t x ≡ true)
any→Σ t [] h = cc
any→Σ t (x ∷ xs) h = elim (Bool-cases (t x)) [ inl p ↦ (x, p) | inr p ↦ any→Σ t xs (ground arith) ]

any_field : (t : RevisionField → Bool) (f : RevisionField) → t f ≡ true → any t fields ≡ true
any_field t RevisionField.unavailable_mw h = ground arith
any_field t RevisionField.normal_capacity_mw h = ground arith
any_field t _ h = ground arith

module _ (p c : ReportedEventRevision) where
  nonempty-field_deltas :
      (names : List RevisionField)
      → leb 1 (length (field_deltas p c names)) ≡ any (differs p c) names
  unfolding field_deltas
  nonempty-field_deltas [] = refl
  nonempty-field_deltas (f ∷ names) = ground (arith, nonempty-field_deltas names)

-- One revision may follow another.
pub record Follows (previous current : ReportedEventRevision) : Type 0 where
  pub same_event : previous.event_id ≡ current.event_id
  pub next : current.revision ≡ previous.revision + 1
  pub in_time : previous.published_at ≤ current.published_at
  pub live : is_terminal previous.status ≡ false
  pub revised : current.status ≢ opened
  pub changed : (f : RevisionField) × (differs previous current f ≡ true)

pub diff-Follows :
    (p c : ReportedEventRevision) (d : EventRevisionDelta) → diff_revisions p c ≡ ok d → Follows p c
unfolding diff_revisions build_delta
diff-Follows p c d h = record {
  same_event = ground (arith, eq_iff p.event_id c.event_id);
  next = ground arith;
  in_time = ground arith;
  live = ground arith;
  revised = λ e. ground arith;
  changed = any→Σ (differs p c) fields (ground (arith, nonempty-field_deltas p c fields));
}

module _ (p c : ReportedEventRevision) where
  -- what `diff_revisions` returns when it raises nothing
  abbrev pub full_delta : EventRevisionDelta
  full_delta = record {
    event_id = c.event_id;
    from_revision = p.revision;
    to_revision = c.revision;
    changes = field_deltas p c fields;
  }

  -- every successful difference is that one
  pub diff_revisions-eq_ok : (d : EventRevisionDelta) → diff_revisions p c ≡ ok d → d ≡ full_delta
  unfolding diff_revisions build_delta
  diff_revisions-eq_ok d h = ground arith

abbrev field_index : RevisionField → ℕ
field_index RevisionField.unavailable_mw = 0
field_index RevisionField.normal_capacity_mw = 1
field_index RevisionField.effective_start = 2
field_index RevisionField.effective_end = 3
field_index RevisionField.status = 4
field_index RevisionField.reported_cause = 5
field_index RevisionField.evidence_checksum = 6
field_index RevisionField.material_reason = 7

abbrev field_eq : RevisionField → RevisionField → Bool
field_eq f g = field_index f == field_index g

-- the first entry for a field in a list of changes
pub change_of : RevisionField → List RevisionFieldDelta → Option (DeltaValue × DeltaValue)
change_of f [] = none
change_of f (d ∷ rest) = if field_eq d.field f then some (d.before, d.after) else change_of f rest

field_eq-eq : (f g : RevisionField) → field_eq f g ≡ true → f ≡ g
field_eq-eq f g h = ground arith

module _ (p c : ReportedEventRevision) (f : RevisionField) where
  change_of-field_deltas :
      (names : List RevisionField)
      → change_of f (field_deltas p c names) ≡ (
          if any (λ g. field_eq g f) names && differs p c f
          then some (delta_value f p, delta_value f c)
          else none)
  unfolding change_of field_deltas
  change_of-field_deltas [] = refl
  change_of-field_deltas (g ∷ names) = elim (Bool-cases (field_eq g f)) [
    | inl e ↦ rw (field_eq-eq g f e) (ground (arith, change_of-field_deltas names))
    | inr e ↦ ground (arith, change_of-field_deltas names)
  ]

  fields_complete : any (λ g. field_eq g f) fields ≡ true
  fields_complete = any_field (λ g. field_eq g f) f (ground arith)

  -- A delta tells of each field whether it changed, and from what to what.
  change_of-diff :
      (d : EventRevisionDelta)
      → diff_revisions p c ≡ ok d
      → change_of f d.changes
        ≡ (if differs p c f then some (delta_value f p, delta_value f c) else none)
  change_of-diff d h =
      rw (diff_revisions-eq_ok p c d h, change_of-field_deltas fields, fields_complete) refl

-- `differs` is the inequality of the two values
pub differs_iff :
    (p c : ReportedEventRevision) (f : RevisionField)
    → (differs p c f ≡ true) ↔ (delta_value f p ≢ delta_value f c)
unfolding differs
differs_iff p c f = (
  λ h e. ground (arith, delta_eq_iff (delta_value f p) (delta_value f c)),
  λ h. ground (arith, delta_eq_iff (delta_value f p) (delta_value f c)),
)
