-- ===== src/Events/Revisions/Tests.antt =====
-- Concrete revisions of app/events/revisions.py, and the theorems at them.
use hz.Prelude.{◌≡◌, refl, ◌↔◌, true, false, none, some, [], ◌∷◌, ok, arith, ◌+◌, ◌≤◌}
use hz.Prelude.Int.{pos}
use hz.Events.Models.{opened, updated, withdrawn}
use hz.Events.Revisions.{
  ReportedEventRevision, EventLifecycleHistory, build_revision, build_delta, build_history,
  diff_revisions, append_revision, current, validate_pairs, delta_value, delta_eq, differs,
  field_deltas, is_terminal, authoritative_notice,
}
use hz.Events.Revisions.Validation.{HasFields, IsReported, build_revision_iff}
use hz.Events.Revisions.Diff.{full_delta}
use hz.Events.Revisions.History.{
  append_unchecked, append_revision-eq_unchecked, history_positions, history_order,
}

program : Unit {0}
unfolding build_revision build_delta build_history diff_revisions append_revision current
    validate_pairs delta_value delta_eq differs field_deltas
program = tt

abbrev outage : ReportedEventRevision
outage = record {
  event_id = "evt_1";
  revision = 1;
  status = opened;
  published_at = 100;
  effective_start = some 50;
  effective_end = some 500;
  authority = authoritative_notice;
  asset_id = some "T_DRAX-1";
  asset_name = none;
  asset_identity_reliable = true;
  unavailable_mw = some (pos 600);
  normal_capacity_mw = some (pos 660);
  planned = some false;
  reported_cause = none;
  evidence_checksum = "a1";
  material_reason = none;
  superseded_by_event_id = none;
  source_record_ids = "r1" ∷ [];
}

abbrev extended : ReportedEventRevision
extended = record outage {
  revision = 2;
  status = updated;
  published_at = 200;
  effective_end = some 900;
  material_reason = some "end moved";
}

abbrev cancelled : ReportedEventRevision
cancelled = record extended { revision = 3; status = withdrawn; published_at = 300 }

abbrev lifecycle : EventLifecycleHistory
lifecycle = record { event_id = "evt_1"; revisions = outage ∷ extended ∷ [] }

lifecycle_is_valid : build_history lifecycle ≡ ok lifecycle
unfolding program
lifecycle_is_valid = refl

diff_extended : diff_revisions outage extended ≡ ok (full_delta outage extended)
unfolding program
diff_extended = refl

build_revision_iff_example :
    (build_revision outage ≡ ok outage) ↔ ((outage ≡ outage) × HasFields outage × IsReported outage)
build_revision_iff_example = build_revision_iff outage outage

append_revision-eq_unchecked_example :
    append_revision lifecycle cancelled ≡ append_unchecked lifecycle cancelled
append_revision-eq_unchecked_example =
    append_revision-eq_unchecked lifecycle cancelled lifecycle_is_valid

history_positions_example : (extended.revision ≡ 1 + 1) × (extended.event_id ≡ lifecycle.event_id)
history_positions_example = history_positions lifecycle 1 extended lifecycle_is_valid refl

history_order_example : (is_terminal opened ≡ false) × (100 ≤ 200)
history_order_example =
    history_order lifecycle 0 1 outage extended lifecycle_is_valid (omega arith) refl refl
