-- ===== src/Events/Lifecycle/Tests.antt =====
-- An outage that is seen, seen again, changed and closed, and the theorems about the lifecycle at it.
use mathlib.Core.List.{Perm}
use hz.Prelude.{◌≡◌, refl, String, Bool, true, some, List, [], ◌∷◌, ◌==◌, ok, err}
use hz.Prelude.Int.{pos}
use hz.Prelude.Dicts.{values, lookup, insert}
use hz.Events.Models.{
  EventCandidate, EvidenceFact, build_candidate, important, reported, derived, high, whole, updated,
  stable_id, unsupported_cause,
}
use hz.Events.Lifecycle.{
  apply, apply_to, resolve, resolve_to, list, new_event, revised, closed, store, key_error,
}
use hz.Events.Lifecycle.Laws.{
  Call, applied, resolved_by, run, AllSound, run-AllSound, LatestFirst, of_time, list-LatestFirst,
}

abbrev fact : EvidenceFact
fact = record {
  fact_id = "capacity";
  metric = "unavailable_capacity";
  label = "Unavailable capacity";
  value = whole (pos 600);
  unit = some "MW";
  observed_at = 90;
  source_record_ids = "remit-1" ∷ [];
}

abbrev outage : EventCandidate
outage = record {
  rule_id = "reported-unavailability";
  rule_version = 1;
  event_type = "outage";
  subject_type = "asset";
  subject_id = some "T_UNIT-1";
  occurred_at = 100;
  severity = important;
  evidence_class = reported;
  confidence = high;
  confidence_reasons = "Reported" ∷ [];
  dedupe_key = "remit-1";
  facts = fact ∷ [];
  cause_reported = true;
}

abbrev longer : EventCandidate
longer = record outage { occurred_at = 101 }

-- an equality that suffices for these
abbrev same : EventCandidate → EventCandidate → Bool
same c d = c.occurred_at == d.occurred_at

abbrev digest : String → String
digest key = key

abbrev calls : List Call
calls =
    applied outage 110
    ∷ applied outage 111
    ∷ resolved_by "evt_remit-1" 120
    ∷ applied longer 130
    ∷ []

outage_built : build_candidate outage ≡ ok outage
unfolding build_candidate
outage_built = refl

derived_cause : build_candidate (record outage { evidence_class = derived }) ≡ err unsupported_cause
unfolding build_candidate
derived_cause = refl

-- An event that is seen again after its resolution keeps the time of the resolution.
seen_again :
    values (run digest same [] calls)
    ≡ record {
      event_id = "evt_remit-1";
      revision = 3;
      status = updated;
      candidate = longer;
      opened_at = 110;
      updated_at = 130;
      resolved_at = some 120;
    }
      ∷ []
unfolding values apply apply_to resolve resolve_to new_event revised closed store lookup insert
    stable_id
seen_again = refl

unknown : (resolve [] "evt_remit-1" 5).0 ≡ err key_error
unfolding resolve resolve_to lookup
unknown = refl

run-AllSound_example : AllSound digest same (run digest same [] calls)
run-AllSound_example = run-AllSound digest same calls

list-LatestFirst_example :
    Perm (list (run digest same [] calls)) (values (run digest same [] calls))
    × LatestFirst (list (run digest same [] calls))
    × (of_time 101 (list (run digest same [] calls))
        ≡ of_time 101 (values (run digest same [] calls)))
list-LatestFirst_example = list-LatestFirst (run digest same [] calls) 101
