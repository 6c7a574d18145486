-- ===== src/Events/Relevance/Bounds.antt =====
-- The bounds of a relevance score.
use hz.Prelude.{
  sym, le→leb, ℕ, ◌+◌, ◌≤◌, ◌≡◌, refl, Bool, true, false, ◌&&◌, not, Option, if◌then◌else◌, ok,
  arith, Bool-cases, inl, inr,
}
use hz.Prelude.Int.{ℤ}
use hz.Time.{aware}
use hz.Events.Models.{Float}
use hz.Events.Revisions.{ReportedEventRevision, EventAuthority, is_terminal}
use hz.Events.Relevance.{
  ScoreComponents, EventRelevanceScore, total, build_components, build_score, is_percent, has_ended,
  authority_score, warning_score, unavailable_mw_score, capacity_percent_score, timing_score,
  duration_score, planning_score, novelty_score, material_revision_score, capacity_percent,
  components_of, ExclusionReason, terminal_status, reported_window_ended, excluded, included,
  score_at, score_event,
}

-- The two scores that turn on the authority and the two that turn on the revision's number.
authority_bounds : (a : EventAuthority) → (authority_score a ≤ 20) × (warning_score a ≤ 10)
unfolding authority_score warning_score
authority_bounds a = ground arith

unavailable_mw_bounds : (mw : Option ℤ) → unavailable_mw_score mw ≤ 15
unfolding unavailable_mw_score
unavailable_mw_bounds mw = ground arith

percent_bounds : (value : Option Float) → capacity_percent_score value ≤ 15
unfolding capacity_percent_score
percent_bounds value = ground arith

timing_bounds : (event : ReportedEventRevision) (t : ℕ) → timing_score event t ≤ 15
unfolding timing_score
timing_bounds event t = ground arith

duration_bounds : (event : ReportedEventRevision) → duration_score event ≤ 5
unfolding duration_score
duration_bounds event = ground arith

planning_bounds : (planned : Option Bool) → planning_score planned ≤ 5
unfolding planning_score
planning_bounds planned = ground arith

-- A first revision is not a revised one.
revision_bounds :
    (event : ReportedEventRevision) (t : ℕ)
    → (novelty_score event t ≤ 5)
      × (material_revision_score event ≤ 10)
      × (novelty_score event t + material_revision_score event ≤ 10)
unfolding novelty_score material_revision_score
revision_bounds event t = ground arith

-- the constraints of the fields of `ScoreComponents`
record Fits (c : ScoreComponents) : Type 0 where
  authority : c.authority ≤ 20
  system_warning : c.system_warning ≤ 10
  unavailable_mw : c.unavailable_mw ≤ 15
  unavailable_capacity_percent : c.unavailable_capacity_percent ≤ 15
  timing : c.timing ≤ 15
  duration : c.duration ≤ 5
  reported_planning_state : c.reported_planning_state ≤ 5
  novelty : c.novelty ≤ 5
  material_revision : c.material_revision ≤ 10

Fits-built : (c : ScoreComponents) → Fits c → build_components c ≡ ok c
unfolding build_components
Fits-built c f =
    rw
      (
        le→leb _ _ f.authority,
        le→leb _ _ f.system_warning,
        le→leb _ _ f.unavailable_mw,
        le→leb _ _ f.unavailable_capacity_percent,
        le→leb _ _ f.timing,
        le→leb _ _ f.duration,
        le→leb _ _ f.reported_planning_state,
        le→leb _ _ f.novelty,
        le→leb _ _ f.material_revision,
      )
      refl

module _ (percent_of : ℤ → ℤ → Float) (event : ReportedEventRevision) (t : ℕ) where
  components_of-Fits : Fits (components_of percent_of event t)
  unfolding components_of
  components_of-Fits = record {
    authority = (authority_bounds event.authority).0;
    system_warning = (authority_bounds event.authority).1;
    unavailable_mw = unavailable_mw_bounds event.unavailable_mw;
    unavailable_capacity_percent = percent_bounds (capacity_percent percent_of event);
    timing = timing_bounds event t;
    duration = duration_bounds event;
    reported_planning_state = planning_bounds event.planned;
    novelty = (revision_bounds event t).0;
    material_revision = (revision_bounds event t).1;
  }

  total-components_of : total (components_of percent_of event t) ≤ 95
  unfolding total components_of
  total-components_of = omega (
    arith,
    authority_bounds event.authority,
    unavailable_mw_bounds event.unavailable_mw,
    percent_bounds (capacity_percent percent_of event),
    timing_bounds event t,
    duration_bounds event,
    planning_bounds event.planned,
    revision_bounds event t,
  )

  -- the event still counts at `t`
  pub is_live : Bool
  is_live = not (is_terminal event.status) && not (has_ended event.effective_end t)

  -- The score of a live event is the sum of its components, and any other event's is zero.
  pub record IsScored (s : EventRelevanceScore) : Type 0 where
    pub same_event : s.event ≡ event
    pub live : s.eligible ≡ is_live
    pub scored : s.total_score ≡ (if is_live then total (components_of percent_of event t) else 0)
    pub bounded : s.total_score ≤ 95

  excluded-IsScored :
      (reason : ExclusionReason) → is_live ≡ false → IsScored (excluded percent_of event t reason)
  unfolding excluded
  excluded-IsScored reason e = record {
    same_event = refl;
    live = sym e;
    scored = rw e refl;
    bounded = omega arith;
  }

  included-IsScored :
      is_live ≡ true → IsScored (included percent_of event t (components_of percent_of event t))
  unfolding included
  included-IsScored e = record {
    same_event = refl;
    live = sym e;
    scored = rw e refl;
    bounded = total-components_of;
  }

  module _ (h : is_percent (capacity_percent percent_of event) ≡ true) where
    excluded_built :
        (reason : ExclusionReason)
        → build_score (excluded percent_of event t reason) ≡ ok (excluded percent_of event t reason)
    unfolding build_score excluded total
    excluded_built reason = rw h refl

    included_built :
        (c : ScoreComponents)
        → total c ≤ 95
        → build_score (included percent_of event t c) ≡ ok (included percent_of event t c)
    unfolding build_score included
    included_built c fits = ground arith

    score_at-IsScored :
        (s : EventRelevanceScore) × (score_at percent_of event t ≡ ok s) × IsScored s
    unfolding score_at is_live
    score_at-IsScored = elim (Bool-cases (is_terminal event.status)) [
      | inl e ↦
          let reason = terminal_status event.status in
          (
            excluded percent_of event t reason,
            rw e (excluded_built reason),
            excluded-IsScored reason (rw e refl),
          )
      | inr e ↦ elim (Bool-cases (has_ended event.effective_end t)) [
        | inl f ↦
            let reason = reported_window_ended in
            (
              excluded percent_of event t reason,
              rw (e, f) (excluded_built reason),
              excluded-IsScored reason (rw (e, f) refl),
            )
        | inr f ↦
            let c = components_of percent_of event t in
            (
              included percent_of event t c,
              rw (e, f, Fits-built c components_of-Fits) (included_built c total-components_of),
              included-IsScored (rw (e, f) refl),
            )
      ]
    ]

    -- Where the unavailable share of the capacity is a finite number from zero on, or unknown, an
    -- event is scored. The score is the sum of the components if the event is live, and zero if it is
    -- terminal or its window has ended; it is 95 at most.
    pub score_event-IsScored :
        (s : EventRelevanceScore) × (score_event percent_of event (aware t) ≡ ok s) × IsScored s
    unfolding score_event
    score_event-IsScored = score_at-IsScored
