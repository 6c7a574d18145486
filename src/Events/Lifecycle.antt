-- ===== src/Events/Lifecycle.antt =====
-- app/events/lifecycle.py: the in-memory lifecycle of detected events. The hash behind the stable
-- identifier and the equality of candidates are parameters. `now` is the argument or the clock's
-- reading.
pub mod Laws
mod Tests
use hz.Prelude.{
  ℕ, ◌+◌, String, Bool, true, false, Option, none, some, List, [], ◌∷◌, leb, str_eq, if◌then◌else◌,
  Result, ok, err,
}
use hz.Prelude.Dicts.{Dict, values, lookup, insert}
use hz.Prelude.Sorting.{sorted}
use hz.Events.Models.{EventCandidate, DetectedEvent, opened, updated, resolved, stable_id}

pub data LifecycleError : Type 0 where
  key_error : LifecycleError

abbrev pub Events : Type 0
Events = Dict String DetectedEvent

new_event : String → EventCandidate → ℕ → DetectedEvent
new_event event_id candidate now = record {
  event_id = event_id;
  revision = 1;
  status = opened;
  candidate = candidate;
  opened_at = now;
  updated_at = now;
  resolved_at = none;
}

revised : DetectedEvent → EventCandidate → ℕ → DetectedEvent
revised event candidate now = record event {
  revision = event.revision + 1;
  status = updated;
  candidate = candidate;
  updated_at = now;
}

closed : DetectedEvent → ℕ → DetectedEvent
closed event now = record event {
  revision = event.revision + 1;
  status = resolved;
  updated_at = now;
  resolved_at = some now;
}

-- `self._events[event_id] = event` and its return
store : Events → String → DetectedEvent → DetectedEvent × Events
store events event_id event = (event, insert str_eq event_id event events)

module _ (digest : String → String) (same : EventCandidate → EventCandidate → Bool) where
  -- what `apply` does with `self._events.get(event_id)`
  apply_to : Option DetectedEvent → Events → EventCandidate → ℕ → DetectedEvent × Events
  unfolding new_event revised store
  apply_to none events candidate now =
      let event_id = stable_id digest candidate in
      store events event_id (new_event event_id candidate now)
  apply_to (some existing) events candidate now =
      if same existing.candidate candidate
      then (existing, events)
      else store events (stable_id digest candidate) (revised existing candidate now)

  pub apply : Events → EventCandidate → ℕ → DetectedEvent × Events
  unfolding apply_to
  apply events candidate now =
      apply_to (lookup str_eq (stable_id digest candidate) events) events candidate now

resolve_to :
    Option DetectedEvent → Events → String → ℕ → Result LifecycleError DetectedEvent × Events
unfolding closed
resolve_to none events event_id now = (err key_error, events)
resolve_to (some existing) events event_id now =
    (ok (closed existing now), insert str_eq event_id (closed existing now) events)

pub resolve : Events → String → ℕ → Result LifecycleError DetectedEvent × Events
unfolding resolve_to
resolve events event_id now = resolve_to (lookup str_eq event_id events) events event_id now

-- `sorted(…, reverse=True)` keeps the order of events of one time.
abbrev pub not_before : DetectedEvent → DetectedEvent → Bool
not_before x y = leb y.candidate.occurred_at x.candidate.occurred_at

pub list : Events → List DetectedEvent
list events = sorted not_before (values events)
