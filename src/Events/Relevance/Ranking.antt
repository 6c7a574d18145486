-- ===== src/Events/Relevance/Ranking.antt =====
-- app/events/relevance.py: the ranking of events by relevance. Parameters: the equality of revisions,
-- the share of the capacity, the asset's normal form, and `published_at.timestamp()`, a finite
-- float in units of 2^-1074.
pub mod Laws
mod Tests
use Prim.Native.Nat.{Ordering, compare}
use Prim.Native.String.{compare as text_compare}
use hz.Prelude.{
  ℕ, String, Bool, true, false, ◌&&◌, ◌||◌, not, Option, none, some, List, [], ◌∷◌, map, filter,
  any, length, take, ltb, leb, ◌==◌, str_eq, is_some, if◌then◌else◌, Result, ok, err, raise_if,
  ◌>>=◌, ◌>>◌,
}
use hz.Prelude.Int.{ℤ, pos, ltb_ℤ}
use hz.Prelude.Dicts.{Dict, lookup, insert, values}
use hz.Prelude.Latest.{keep}
use hz.Prelude.Orders.{first_of, is_le, compare_ℤ, least}
use hz.Prelude.Sorting.{sorted}
use hz.Time.{Datetime, aware, as_utc}
use hz.Events.Models.{Float}
use hz.Events.Revisions.{
  EventAuthority, system_warning, authoritative_notice, other_reported, ReportedEventRevision,
}
use hz.Events.Relevance.{
  EventRelevanceScore, RelevanceError, naive_time, field_constraint, not_an_integer,
  limit_out_of_range, conflicting_revision, too_many_selected, out_of_fuel, authority_priority,
  score_event,
}
use hz.Events.Relevance.Grouping.{Group, group_eligible_scores}

-- The argument `limit`: an integer, or another value, `True` and `False` included.
pub data LimitArgument : Type 0 where
  integer : ℤ → LimitArgument
  other_value : LimitArgument

abbrev pub max_selected_events : ℕ
max_selected_events = 3

pub record RankedEventGroup : Type 0 where
  pub group_key : String
  pub reliable_asset_id : Option String
  pub member_event_ids : List String
  pub representative : EventRelevanceScore

pub record RankedEventSelection : Type 0 where
  pub as_of : ℕ
  pub requested_limit : ℕ
  pub eligible_group_count : ℕ
  pub selected : List RankedEventGroup

-- `RankedEventSelection(…)`: its fields, then `validate_selection_bound`
unfoldable pub build_selection : RankedEventSelection → Result RelevanceError RankedEventSelection
build_selection s = do
  raise_if (not (leb 1 s.requested_limit && leb s.requested_limit max_selected_events))
      field_constraint
  raise_if (ltb s.requested_limit (length s.selected)) too_many_selected
  raise_if (ltb max_selected_events (length s.selected)) too_many_selected
  ok s

check_limit : LimitArgument → Result RelevanceError ℕ
check_limit other_value = err not_an_integer
check_limit (integer (ℤ.negsuc n)) = err limit_out_of_range
check_limit (integer (ℤ.pos n)) = do
  raise_if (not (leb 1 n && leb n max_selected_events)) limit_out_of_range
  ok n

-- the key of `seen_revisions`
abbrev pub RevisionKey : Type 0
RevisionKey = String × ℕ

abbrev pub revision_key : ReportedEventRevision → RevisionKey
revision_key event = (event.event_id, event.revision)

abbrev pub revision_key_eq : RevisionKey → RevisionKey → Bool
revision_key_eq (a, m) (b, n) = str_eq a b && m == n

-- `by_event` keeps for each event the revision of the highest number.
abbrev pub event_key : ReportedEventRevision → String
event_key event = event.event_id

abbrev pub revision_rank : ReportedEventRevision → List ℕ
revision_rank event = event.revision ∷ []

is_missing : Option ℤ → ℕ
is_missing none = 1
is_missing (some mw) = 0

mw_or_zero : Option ℤ → ℤ
mw_or_zero none = pos 0
mw_or_zero (some mw) = mw

module _ (same : ReportedEventRevision → ReportedEventRevision → Bool) where
  -- `duplicate is not None and duplicate != event`
  conflicts : Option ReportedEventRevision → ReportedEventRevision → Bool
  conflicts none event = false
  conflicts (some duplicate) event = not (same duplicate event)

  -- the loop of `_latest_revisions`, with its two dictionaries
  unfoldable pub latest_loop :
      List ReportedEventRevision
      → Dict RevisionKey ReportedEventRevision
      → Dict String ReportedEventRevision
      → Result RelevanceError (List ReportedEventRevision)
  unfolding conflicts
  latest_loop [] seen by_event = ok (values by_event)
  latest_loop (event ∷ rest) seen by_event = do
    raise_if (conflicts (lookup revision_key_eq (revision_key event) seen) event)
        conflicting_revision
    latest_loop rest (insert revision_key_eq (revision_key event) event seen)
        (keep str_eq event_key revision_rank (lookup str_eq event.event_id by_event) event by_event)

  pub latest_revisions :
      List ReportedEventRevision → Result RelevanceError (List ReportedEventRevision)
  latest_revisions events = latest_loop events [] []

module _ (timestamp : ℕ → ℤ) where
  -- `_score_sort_key(x) < _score_sort_key(y)`, as an answer of three
  unfoldable pub key_compare : EventRelevanceScore → EventRelevanceScore → Ordering
  unfolding authority_priority is_missing mw_or_zero
  key_compare x y = first_of (compare y.total_score x.total_score) (
      first_of
        (compare (authority_priority y.event.authority) (authority_priority x.event.authority))
        (first_of (compare (is_missing x.event.unavailable_mw) (is_missing y.event.unavailable_mw))
          (first_of
            (compare_ℤ (mw_or_zero y.event.unavailable_mw) (mw_or_zero x.event.unavailable_mw))
            (first_of (compare_ℤ (timestamp y.event.published_at) (timestamp x.event.published_at))
              (text_compare x.event.event_id y.event.event_id)))))

  -- `tuple(sorted({…}))`
  unfoldable pub distinct_ids : List String → List String
  distinct_ids [] = []
  distinct_ids (i ∷ rest) =
      let others = distinct_ids rest in if any (str_eq i) others then others else i ∷ others

  ids_of : List EventRelevanceScore → List String
  ids_of members =
      sorted (λ s t. is_le (text_compare s t)) (distinct_ids (map (λ m. m.event.event_id) members))

  -- The loop over the groups. `least` is `min(members, key=_score_sort_key)`, the first of the
  -- least. `min` of no members raises; the groups that are ranked have members.
  unfoldable pub ranked_groups : List Group → List RankedEventGroup
  unfolding ids_of
  ranked_groups [] = []
  ranked_groups (group ∷ rest) = elim group.members [
    | [] ↦ ranked_groups rest
    | first ∷ others ↦
        record {
          group_key = group.group_key;
          reliable_asset_id = group.reliable_asset_id;
          member_event_ids = ids_of (first ∷ others);
          representative = least (key_compare) first others;
        }
        ∷ ranked_groups rest
  ]

  unfoldable pub ranked_before : RankedEventGroup → RankedEventGroup → Bool
  ranked_before x y = is_le (key_compare x.representative y.representative)

module _ (percent_of : ℤ → ℤ → Float) where
  -- `[score_event(event, as_of=instant) for event in latest]`
  unfoldable pub scores_at :
      ℕ → List ReportedEventRevision → Result RelevanceError (List EventRelevanceScore)
  scores_at instant [] = ok []
  scores_at instant (event ∷ rest) = do
    score ← score_event percent_of event (aware instant)
    others ← scores_at instant rest
    ok (score ∷ others)

grouped : Option (List Group) → Result RelevanceError (List Group)
grouped none = err out_of_fuel
grouped (some groups) = ok groups

module _ (same : ReportedEventRevision → ReportedEventRevision → Bool) (percent_of : ℤ → ℤ → Float)
    (normal : String → String) (timestamp : ℕ → ℤ) where
  pub rank_relevant_events :
      List ReportedEventRevision
      → Datetime
      → LimitArgument
      → Result RelevanceError RankedEventSelection
  unfolding check_limit grouped
  rank_relevant_events events as_of limit = do
    n ← check_limit limit
    instant ← as_utc naive_time as_of
    latest ← latest_revisions same events
    scores ← scores_at percent_of instant latest
    groups ← grouped (group_eligible_scores normal (filter (λ s. s.eligible) scores))
    let ranked = sorted (ranked_before timestamp) (ranked_groups timestamp groups)
    build_selection (record {
      as_of = instant;
      requested_limit = n;
      eligible_group_count = length ranked;
      selected = take n ranked;
    })
