-- ===== src/Events/Relevance/Ranking/Tests.antt =====
-- A ranking of three events, and the witnesses of the theorems on relevance.
use mathlib.Core.List.{Perm}
use hz.Prelude.{
  ℕ, ◌+◌, ◌-◌, ◌*◌, ◌/◌, ◌^◌, ◌≤◌, ◌≡◌, refl, String, Bool, true, false, ◌&&◌, none, some, List, [],
  ◌∷◌, map, length, All, Result, ok, err, arith, str_eq, ◌==◌,
}
use hz.Prelude.Int.{ℤ, pos, pos_part}
use hz.Prelude.Dicts.{Dict, lookup, insert, values, Distinct}
use hz.Prelude.Groups.{append_at}
use hz.Prelude.Latest.{keep, lex_lt, IsLatest}
use hz.Prelude.Orders.{least, first_of, compare_ℤ}
use hz.Prelude.Sorting.{sorted, insert_sorted}
use hz.Time.{Datetime, aware, naive, hours}
use hz.Events.Models.{Float, finite, opened, resolved}
use hz.Events.Revisions.{ReportedEventRevision, authoritative_notice, system_warning, is_terminal}
use hz.Events.Relevance.{
  EventRelevanceScore, RelevanceError, is_percent, capacity_percent, score_event, naive_time,
  limit_out_of_range, not_an_integer, conflicting_revision, total, units_of, build_score, has_ended,
  score_at, zero_components, components_of, build_components,
}
use hz.Events.Relevance.Bounds.{IsScored, score_event-IsScored}
use hz.Events.Relevance.Grouping.{
  group_eligible_scores, components_among, grow, sweep, touches, split_scores, asset_group,
  event_group, groups_of_asset, groups_of_assets, key_before, id_before, asset_key,
  reported_windows_overlap,
}
use hz.Events.Relevance.Grouping.Components.{all_of, AreApart, components_among_total}
use hz.Events.Relevance.Ranking.{
  LimitArgument, integer, other_value, RankedEventSelection, rank_relevant_events, latest_revisions,
  latest_loop, key_compare, ranked_groups, ranked_before, scores_at, distinct_ids, build_selection,
  event_key, revision_rank,
}
use hz.Events.Relevance.Ranking.Laws.{
  IsRanking, rank_relevant_events-IsRanking, latest_revisions-IsLatest,
}

abbrev noon : ℕ
noon = 63871761600000000

abbrev percent : ℤ → ℤ → Float
percent unavailable normal = finite (pos (pos_part unavailable * 100 * 2 ^ 1074 / pos_part normal))

-- compares what the runs below differ in
abbrev same_revision : ReportedEventRevision → ReportedEventRevision → Bool
same_revision x y =
    str_eq x.event_id y.event_id && x.revision == y.revision && x.published_at == y.published_at

abbrev plain : String → String
plain s = s

abbrev outage : ReportedEventRevision
outage = record {
  event_id = "evt_1";
  revision = 1;
  status = opened;
  published_at = noon;
  effective_start = some noon;
  effective_end = some (63871848000000000);
  authority = authoritative_notice;
  asset_id = some "t_drax-1";
  asset_name = none;
  asset_identity_reliable = true;
  unavailable_mw = some (units_of 600);
  normal_capacity_mw = some (units_of 660);
  planned = some false;
  reported_cause = none;
  evidence_checksum = "a1";
  material_reason = none;
  superseded_by_event_id = none;
  source_record_ids = "r1" ∷ [];
}

-- a second notice on the same asset, at overlapping times
abbrev derating : ReportedEventRevision
derating = record outage {
  event_id = "evt_2";
  unavailable_mw = some (units_of 50);
  planned = some true;
}

abbrev warning : ReportedEventRevision
warning = record outage {
  event_id = "evt_3";
  authority = system_warning;
  asset_id = none;
  asset_identity_reliable = false;
  unavailable_mw = none;
  normal_capacity_mw = none;
  planned = none;
}

abbrev closed : ReportedEventRevision
closed = record warning {
  event_id = "evt_4";
  revision = 2;
  status = resolved;
  material_reason = some "over";
}

abbrev events : List ReportedEventRevision
events = outage ∷ derating ∷ warning ∷ closed ∷ outage ∷ []

abbrev remaining : List ReportedEventRevision
remaining = outage ∷ derating ∷ warning ∷ closed ∷ []

abbrev rank_of :
    List ReportedEventRevision
    → Datetime
    → LimitArgument
    → Result RelevanceError RankedEventSelection
rank_of = rank_relevant_events same_revision percent plain (λ t. pos t)

abbrev shown : Result RelevanceError RankedEventSelection → List (String × List String × ℕ)
shown (ok s) = map (λ g. (g.group_key, g.member_event_ids, g.representative.total_score)) s.selected
shown (err e) = []

events_remain : latest_revisions same_revision events ≡ ok remaining
unfolding latest_revisions latest_loop lookup insert keep values lex_lt
events_remain = refl

best_two :
    shown (rank_of events (aware noon) (integer (pos 2)))
    ≡ ("asset:t_drax-1", "evt_1" ∷ "evt_2" ∷ [], 75) ∷ ("event:evt_3", "evt_3" ∷ [], 55) ∷ []
unfolding rank_relevant_events latest_revisions latest_loop lookup insert keep values lex_lt
    scores_at score_event score_at is_terminal has_ended is_percent capacity_percent components_of
    build_components build_score total group_eligible_scores split_scores groups_of_assets
    groups_of_asset components_among grow sweep touches asset_group event_group append_at key_before
    id_before sorted insert_sorted ranked_groups ranked_before key_compare first_of compare_ℤ least
    distinct_ids build_selection asset_key reported_windows_overlap
best_two = refl

none_asked : rank_of events (aware noon) (integer (pos 0)) ≡ err limit_out_of_range
unfolding rank_relevant_events
none_asked = refl

true_asked : rank_of events (aware noon) other_value ≡ err not_an_integer
unfolding rank_relevant_events
true_asked = refl

naive_asked : rank_of events naive (integer (pos 1)) ≡ err naive_time
unfolding rank_relevant_events
naive_asked = refl

conflict_asked :
    rank_of (outage ∷ record outage { published_at = noon + 1 } ∷ []) (aware noon) (integer (pos 1))
    ≡ err conflicting_revision
unfolding rank_relevant_events latest_revisions latest_loop lookup insert keep
conflict_asked = refl

capacity_checks : All (λ e. is_percent (capacity_percent percent e) ≡ true) remaining
unfolding capacity_percent is_percent
capacity_checks = (refl, (refl, (refl, (refl, tt))))

score_event-IsScored_example :
    (s : EventRelevanceScore) × (score_event percent outage (aware noon) ≡ ok s)
    × IsScored percent outage noon s
score_event-IsScored_example = score_event-IsScored percent outage noon capacity_checks.0

rank_relevant_events-IsRanking_example :
    (s : RankedEventSelection) × (rank_of events (aware noon) (integer (pos 2)) ≡ ok s)
    × IsRanking same_revision percent plain (λ t. pos t) noon 2 remaining s
rank_relevant_events-IsRanking_example =
    rank_relevant_events-IsRanking same_revision percent plain (λ t. pos t) events remaining noon 2
      (omega arith) (omega arith) events_remain capacity_checks

latest_revisions-IsLatest_example :
    (d : Dict String ReportedEventRevision) × (remaining ≡ values d)
    × Distinct str_eq d
    × IsLatest str_eq event_key revision_rank events "evt_1" (lookup str_eq "evt_1" d)
latest_revisions-IsLatest_example =
    latest_revisions-IsLatest same_revision events remaining "evt_1" events_remain

-- scores of the two notices on one asset, and of one that ended before both
abbrev score_for : ReportedEventRevision → EventRelevanceScore
score_for event = record {
  as_of = noon;
  event = event;
  eligible = true;
  exclusion_reason = none;
  unavailable_capacity_percent = none;
  components = zero_components;
  total_score = 0;
}

abbrev ended : EventRelevanceScore
ended = score_for (record outage {
  effective_start = some (noon - hours 9);
  effective_end = some (noon - hours 8);
})

abbrev same_asset : List EventRelevanceScore
same_asset = ended ∷ score_for outage ∷ score_for derating ∷ []

components_among_total_example :
    (components : List (List EventRelevanceScore)) × (components_among 3 same_asset
      ≡ some components)
    × Perm (all_of components) same_asset
    × AreApart components
    × All (λ c. 1 ≤ length c) components
components_among_total_example = components_among_total 3 same_asset (omega arith)

two_components :
    components_among 3 same_asset
    ≡ some ((ended ∷ []) ∷ (score_for outage ∷ score_for derating ∷ []) ∷ [])
unfolding components_among grow sweep touches reported_windows_overlap
two_components = refl
