-- ===== src/Events/Relevance.antt =====
-- app/events/relevance.py: the relevance score of a reported revision. The quotient behind the
-- unavailable share of the capacity is the parameter `percent_of`; finite floats are multiples of
-- 2^-1074, as in Events.Revisions. `MAX_SELECTED_EVENTS` and the version are constants.
pub mod Bounds
pub mod Grouping
pub mod Ranking
use hz.Prelude.{
  ℕ, ◌+◌, ◌*◌, ◌^◌, ◌≤◌, String, Bool, true, false, ◌&&◌, ◌||◌, not, Option, none, some, ltb, leb,
  ◌==◌, is_some, if◌then◌else◌, Result, ok, err, raise_if, ◌>>=◌, ◌>>◌,
}
use hz.Prelude.Int.{ℤ, pos, ltb_ℤ, eq_ℤ}
use hz.Time.{Datetime, naive, aware, as_utc, hours}
use hz.Events.Models.{
  EventStatus, opened, updated, resolved, superseded, withdrawn, status_eq, Float, finite,
}
use hz.Events.Revisions.{
  EventAuthority, system_warning, authoritative_notice, other_reported, ReportedEventRevision,
  is_terminal,
}
use hz.Events.Rules.{float_lt, float_le, float_whole}

pub data RelevanceError : Type 0 where
  naive_time field_constraint total_mismatch ineligible_score : RelevanceError
  not_an_integer limit_out_of_range conflicting_revision : RelevanceError
  -- no exception: the loops of the grouping stopped short
  too_many_selected out_of_fuel : RelevanceError

pub record ScoreComponents : Type 0 where
  pub authority : ℕ
  pub system_warning : ℕ
  pub unavailable_mw : ℕ
  pub unavailable_capacity_percent : ℕ
  pub timing : ℕ
  pub duration : ℕ
  pub reported_planning_state : ℕ
  pub novelty : ℕ
  pub material_revision : ℕ

unfoldable pub total : ScoreComponents → ℕ
total c =
    c.authority + c.system_warning + c.unavailable_mw + c.unavailable_capacity_percent + c.timing
    + c.duration + c.reported_planning_state + c.novelty + c.material_revision

-- `ScoreComponents(…)`: the bounds of its fields
unfoldable pub build_components : ScoreComponents → Result RelevanceError ScoreComponents
build_components c = do
  raise_if (not (leb c.authority 20)) field_constraint
  raise_if (not (leb c.system_warning 10)) field_constraint
  raise_if (not (leb c.unavailable_mw 15)) field_constraint
  raise_if (not (leb c.unavailable_capacity_percent 15)) field_constraint
  raise_if (not (leb c.timing 15)) field_constraint
  raise_if (not (leb c.duration 5)) field_constraint
  raise_if (not (leb c.reported_planning_state 5)) field_constraint
  raise_if (not (leb c.novelty 5)) field_constraint
  raise_if (not (leb c.material_revision 10)) field_constraint
  ok c

pub data ExclusionReason : Type 0 where
  terminal_status : EventStatus → ExclusionReason
  reported_window_ended : ExclusionReason

pub record EventRelevanceScore : Type 0 where
  pub as_of : ℕ
  pub event : ReportedEventRevision
  pub eligible : Bool
  pub exclusion_reason : Option ExclusionReason
  pub unavailable_capacity_percent : Option Float
  pub components : ScoreComponents
  pub total_score : ℕ

-- `Field(default=None, ge=0, allow_inf_nan=False)`
unfoldable pub is_percent : Option Float → Bool
is_percent none = true
is_percent (some (finite n)) = not (ltb_ℤ n (pos 0))
is_percent (some other) = false

-- `EventRelevanceScore(…)`: the constraints of its fields, then `validate_total`
unfoldable pub build_score : EventRelevanceScore → Result RelevanceError EventRelevanceScore
build_score s = do
  raise_if (not (is_percent s.unavailable_capacity_percent)) field_constraint
  raise_if (not (leb s.total_score 100)) field_constraint
  raise_if (not (s.total_score == total s.components)) total_mismatch
  raise_if (not s.eligible && not (s.total_score == 0)) ineligible_score
  ok s

-- whole MW or percent, as multiples of 2^-1074
abbrev pub units_of : ℕ → ℤ
units_of n = pos (n * 2 ^ 1074)

authority_priority : EventAuthority → ℕ
authority_priority system_warning = 3
authority_priority authoritative_notice = 2
authority_priority other_reported = 1

authority_score : EventAuthority → ℕ
authority_score system_warning = 20
authority_score authoritative_notice = 20
authority_score other_reported = 8

warning_score : EventAuthority → ℕ
warning_score system_warning = 10
warning_score _ = 0

unavailable_mw_score : Option ℤ → ℕ
unavailable_mw_score none = 0
unavailable_mw_score (some value) =
    if eq_ℤ value (pos 0)
    then 0
    else if ltb_ℤ value (units_of 100)
    then 2
    else if ltb_ℤ value (units_of 500)
    then 6
    else if ltb_ℤ value (units_of 1000)
    then 10
    else 15

capacity_percent_score : Option Float → ℕ
capacity_percent_score none = 0
capacity_percent_score (some value) =
    if float_le value (float_whole 0)
    then 0
    else if float_lt value (float_whole 10)
    then 2
    else if float_lt value (float_whole 25)
    then 5
    else if float_lt value (float_whole 50)
    then 9
    else if float_lt value (float_whole 75)
    then 12
    else 15

-- `end is None or end > as_of`
still_open : Option ℕ → ℕ → Bool
still_open none as_of = true
still_open (some end) as_of = ltb as_of end

timing_score : ReportedEventRevision → ℕ → ℕ
unfolding still_open
timing_score event as_of = elim event.effective_start [
  | none ↦ 0
  | some start ↦
      if leb start as_of && still_open event.effective_end as_of
      then 15
      else if leb start as_of
      then 0
      else if leb start (as_of + hours 6)
      then 12
      else if leb start (as_of + hours 24)
      then 8
      else 3
]

duration_between : Option ℕ → Option ℕ → ℕ
duration_between (some start) (some end) =
    if leb (start + hours 24) end
    then 5
    else if leb (start + hours 6) end
    then 3
    else if ltb start end
    then 1
    else 0
duration_between _ _ = 0

duration_score : ReportedEventRevision → ℕ
unfolding duration_between
duration_score event = duration_between event.effective_start event.effective_end

planning_score : Option Bool → ℕ
planning_score (some false) = 5
planning_score (some true) = 2
planning_score none = 0

novelty_score : ReportedEventRevision → ℕ → ℕ
novelty_score event as_of =
    if not (event.revision == 1)
    then 0
    else if ltb as_of event.published_at
    then 0
    else if leb as_of (event.published_at + hours 6)
    then 5
    else if leb as_of (event.published_at + hours 24)
    then 3
    else 0

material_revision_score : ReportedEventRevision → ℕ
material_revision_score event =
    if ltb 1 event.revision && status_eq event.status updated
    then (if is_some event.material_reason then 10 else 0)
    else 0

abbrev pub zero_components : ScoreComponents
zero_components = record {
  authority = 0;
  system_warning = 0;
  unavailable_mw = 0;
  unavailable_capacity_percent = 0;
  timing = 0;
  duration = 0;
  reported_planning_state = 0;
  novelty = 0;
  material_revision = 0;
}

-- `effective_end is not None and effective_end <= instant`
unfoldable pub has_ended : Option ℕ → ℕ → Bool
has_ended none instant = false
has_ended (some end) instant = leb end instant

module _ (percent_of : ℤ → ℤ → Float) where
  capacity_percent_between : Option ℤ → Option ℤ → Option Float
  capacity_percent_between (some unavailable) (some normal) = some (percent_of unavailable normal)
  capacity_percent_between _ _ = none

  unfoldable pub capacity_percent : ReportedEventRevision → Option Float
  unfolding capacity_percent_between
  capacity_percent event = capacity_percent_between event.unavailable_mw event.normal_capacity_mw

  unfoldable pub components_of : ReportedEventRevision → ℕ → ScoreComponents
  unfolding authority_score warning_score unavailable_mw_score capacity_percent_score timing_score
      duration_score planning_score novelty_score material_revision_score
  components_of event instant = record {
    authority = authority_score event.authority;
    system_warning = warning_score event.authority;
    unavailable_mw = unavailable_mw_score event.unavailable_mw;
    unavailable_capacity_percent = capacity_percent_score (capacity_percent event);
    timing = timing_score event instant;
    duration = duration_score event;
    reported_planning_state = planning_score event.planned;
    novelty = novelty_score event instant;
    material_revision = material_revision_score event;
  }

  excluded : ReportedEventRevision → ℕ → ExclusionReason → EventRelevanceScore
  excluded event instant reason = record {
    as_of = instant;
    event = event;
    eligible = false;
    exclusion_reason = some reason;
    unavailable_capacity_percent = capacity_percent event;
    components = zero_components;
    total_score = 0;
  }

  included : ReportedEventRevision → ℕ → ScoreComponents → EventRelevanceScore
  included event instant components = record {
    as_of = instant;
    event = event;
    eligible = true;
    exclusion_reason = none;
    unavailable_capacity_percent = capacity_percent event;
    components = components;
    total_score = total components;
  }

  unfoldable pub score_at : ReportedEventRevision → ℕ → Result RelevanceError EventRelevanceScore
  unfolding excluded included
  score_at event instant =
      if is_terminal event.status
      then build_score (excluded event instant (terminal_status event.status))
      else if has_ended event.effective_end instant
      then build_score (excluded event instant reported_window_ended)
      else do
        components ← build_components (components_of event instant)
        build_score (included event instant components)

  pub score_event : ReportedEventRevision → Datetime → Result RelevanceError EventRelevanceScore
  score_event event as_of = do instant ← as_utc naive_time as_of; score_at event instant
