-- ===== src/Events/Lifecycle/Laws.antt =====
-- What the events of a lifecycle keep through every call.
use mathlib.Core.List.{Perm}
use hz.Prelude.{
  ℕ, ◌+◌, ◌≤◌, ◌≡◌, ◌↔◌, ◌⊎◌, refl, sym, ◌∙◌, String, Bool, true, false, Option, none, some, List,
  [], ◌∷◌, arith, inl, inr, str_eq, eq_iff, Bool-cases, Option-cases, filter, All, ◌==◌, is_some,
}
use hz.Prelude.Dicts.{lookup, insert, lookup-insert, values}
use hz.Prelude.Sorting.{IsSorted, sorted, insert_sorted, sorted-perm, sorted-IsSorted}
use hz.Events.Models.{EventCandidate, DetectedEvent, opened, updated, resolved, stable_id}
use hz.Events.Lifecycle.{
  Events, new_event, revised, closed, apply_to, apply, resolve_to, resolve, list, not_before,
}

-- A call of the lifecycle.
pub data Call : Type 0 where
  applied : EventCandidate → ℕ → Call
  resolved_by : String → ℕ → Call

-- no event of the list occurred before a later one of it
pub LatestFirst : List DetectedEvent → Type 0
LatestFirst [] = Unit
LatestFirst (e ∷ rest) =
    All (λ f. f.candidate.occurred_at ≤ e.candidate.occurred_at) rest × LatestFirst rest

-- the events of one time, in their order
abbrev pub of_time : ℕ → List DetectedEvent → List DetectedEvent
of_time t events = filter (λ e. e.candidate.occurred_at == t) events

earlier-All :
    (e : DetectedEvent) (events : List DetectedEvent)
    → All (λ f. not_before e f ≡ true) events
    → All (λ f. f.candidate.occurred_at ≤ e.candidate.occurred_at) events
earlier-All e [] h = tt
earlier-All e (f ∷ rest) (here, later) = (ground arith, earlier-All e rest later)

IsSorted-LatestFirst :
    (events : List DetectedEvent) → IsSorted not_before events → LatestFirst events
unfolding LatestFirst
IsSorted-LatestFirst [] h = tt
IsSorted-LatestFirst (e ∷ rest) (here, later) =
    (earlier-All e rest here, IsSorted-LatestFirst rest later)

of_time-insert_sorted :
    (t : ℕ) (e : DetectedEvent) (events : List DetectedEvent)
    → of_time t (insert_sorted not_before e events) ≡ of_time t (e ∷ events)
unfolding insert_sorted
of_time-insert_sorted t e [] = refl
of_time-insert_sorted t e (f ∷ rest) = ground (arith, of_time-insert_sorted t e rest)

of_time-sorted :
    (t : ℕ) (events : List DetectedEvent) → of_time t (sorted not_before events) ≡ of_time t events
unfolding sorted
of_time-sorted t [] = refl
of_time-sorted t (e ∷ rest) =
    of_time-insert_sorted t e (sorted not_before rest) ∙ ground (arith, of_time-sorted t rest)

-- The listed events are the stored ones. None of them occurred before one that is listed after it,
-- and those that occurred at one time are listed in the order in which they are stored.
pub list-LatestFirst :
    (events : Events) (t : ℕ)
    → Perm (list events) (values events)
      × LatestFirst (list events)
      × (of_time t (list events) ≡ of_time t (values events))
unfolding list
list-LatestFirst events t = (
  sorted-perm not_before (values events),
  IsSorted-LatestFirst _ (
      sorted-IsSorted not_before (λ x y h. ground arith) (λ x y z p q. ground arith)
        (values events)),
  of_time-sorted t (values events),
)

module _ (digest : String → String) (same : EventCandidate → EventCandidate → Bool) where
  abbrev pub run : Events → List Call → Events
  run events [] = events
  run events (applied c t ∷ calls) = run (apply digest same events c t).1 calls
  run events (resolved_by id t ∷ calls) = run (resolve events id t).1 calls

  -- what holds of an event under its identifier
  pub record IsSound (id : String) (e : DetectedEvent) : Type 0 where
    pub own_id : e.event_id ≡ id
    pub own_candidate : stable_id digest e.candidate ≡ id
    pub first_revision : (e.status ≡ opened) ↔ (e.revision ≡ 1)
    pub numbered : 1 ≤ e.revision
    pub open_end : e.status ≡ opened → e.resolved_at ≡ none
    pub closed_end : e.status ≡ resolved → e.resolved_at ≡ some e.updated_at
    pub ended_before : is_some e.resolved_at ≡ true → 2 ≤ e.revision
    pub reopened : e.status ≡ updated → is_some e.resolved_at ≡ true → 3 ≤ e.revision

  abbrev pub AllSound : Events → Type 0
  AllSound events =
      (id : String) (e : DetectedEvent) → lookup str_eq id events ≡ some e → IsSound id e

  insert-AllSound :
      (events : Events) (id : String) (e : DetectedEvent)
      → IsSound id e
      → AllSound events
      → AllSound (insert str_eq id e events)
  insert-AllSound events id e sound all j f h =
      let found = sym (lookup-insert str_eq eq_iff id j e events) ∙ h in
      elim (Bool-cases (str_eq id j)) [
        | inl p ↦
            let stored : some e ≡ some f = rw p at found in
            let same_event : e ≡ f = ground arith in rw (← same_event, ← (eq_iff id j).0 p) sound
        | inr p ↦ let other : lookup str_eq j events ≡ some f = rw p at found in all j f other
      ]

  new-IsSound :
      (c : EventCandidate) (t : ℕ)
      → IsSound (stable_id digest c) (new_event (stable_id digest c) c t)
  unfolding new_event
  new-IsSound c t = record {
    own_id = refl;
    own_candidate = refl;
    first_revision = (λ h. refl, λ h. refl);
    numbered = omega arith;
    open_end = λ h. refl;
    closed_end = λ h. absurd (ground arith);
    ended_before = λ h. absurd (ground arith);
    reopened = λ h k. absurd (ground arith);
  }

  revised-IsSound :
      (e : DetectedEvent) (c : EventCandidate) (t : ℕ)
      → IsSound (stable_id digest c) e
      → IsSound (stable_id digest c) (revised e c t)
  unfolding revised
  revised-IsSound e c t h = record {
    own_id = h.own_id;
    own_candidate = refl;
    first_revision = (λ s. absurd (ground arith), λ r. absurd (omega (arith, h.numbered, r)));
    numbered = omega arith;
    open_end = λ s. absurd (ground arith);
    closed_end = λ s. absurd (ground arith);
    ended_before = λ k. omega (arith, h.numbered);
    reopened = λ s k. omega (arith, h.ended_before k);
  }

  closed-IsSound :
      (id : String) (e : DetectedEvent) (t : ℕ) → IsSound id e → IsSound id (closed e t)
  unfolding closed
  closed-IsSound id e t h = record {
    own_id = h.own_id;
    own_candidate = h.own_candidate;
    first_revision = (λ s. absurd (ground arith), λ r. absurd (omega (arith, h.numbered, r)));
    numbered = omega arith;
    open_end = λ s. absurd (ground arith);
    closed_end = λ s. refl;
    ended_before = λ k. omega (arith, h.numbered);
    reopened = λ s k. absurd (ground arith);
  }

  apply-AllSound :
      (events : Events) (c : EventCandidate) (t : ℕ)
      → AllSound events
      → AllSound (apply digest same events c t).1
  unfolding apply apply_to
  apply-AllSound events c t all = elim (Option-cases (lookup str_eq (stable_id digest c) events)) [
    | inl missing ↦ rw missing (insert-AllSound events _ _ (new-IsSound c t) all)
    | inr (e, found) ↦ elim (Bool-cases (same e.candidate c)) [
      | inl equal ↦ rw (found, equal) all
      | inr changed ↦
          rw (found, changed)
            (insert-AllSound events _ _ (revised-IsSound e c t (all _ e found)) all)
    ]
  ]

  resolve-AllSound :
      (events : Events) (id : String) (t : ℕ) → AllSound events → AllSound (resolve events id t).1
  unfolding resolve resolve_to
  resolve-AllSound events id t all = elim (Option-cases (lookup str_eq id events)) [
    | inl missing ↦ rw missing all
    | inr (e, found) ↦
        rw found (insert-AllSound events id _ (closed-IsSound id e t (all id e found)) all)
  ]

  run-AllSound_from :
      (events : Events) (calls : List Call) → AllSound events → AllSound (run events calls)
  run-AllSound_from events [] all = all
  run-AllSound_from events (applied c t ∷ calls) all =
      run-AllSound_from (apply digest same events c t).1 calls (apply-AllSound events c t all)
  run-AllSound_from events (resolved_by id t ∷ calls) all =
      run-AllSound_from (resolve events id t).1 calls (resolve-AllSound events id t all)

  -- After any calls of a new lifecycle, each event stands under its identifier, which is the stable
  -- identifier of its candidate; it is open exactly at revision 1; an open event has no time of
  -- resolution, a resolved one was resolved at its last update, and an updated one that has kept
  -- a time of resolution is at revision 3 or a later one.
  pub run-AllSound : (calls : List Call) → AllSound (run [] calls)
  unfolding lookup
  run-AllSound calls = run-AllSound_from [] calls (λ id e h. absurd (ground arith))

  abbrev pub revision_of : Option DetectedEvent → ℕ
  revision_of none = 0
  revision_of (some e) = e.revision

  -- what `apply` has done to the events
  abbrev pub Applied : Events → EventCandidate → ℕ → DetectedEvent → Events → Type 0
  Applied events c t e after =
      let id = stable_id digest c in
      (lookup str_eq id after ≡ some e)
      × ((j : String) → str_eq id j ≡ false → lookup str_eq j after ≡ lookup str_eq j events)
      × (((after ≡ events) × (same e.candidate c ≡ true))
          ⊎ ((e.candidate ≡ c)
              × (e.updated_at ≡ t)
              × (e.revision ≡ revision_of (lookup str_eq id events) + 1)))

  lookup-insert_same :
      (events : Events) (id : String) (e : DetectedEvent)
      → lookup str_eq id (insert str_eq id e events) ≡ some e
  lookup-insert_same events id e =
      rw (lookup-insert str_eq eq_iff id id e events, (eq_iff id id).1 refl) refl

  lookup-insert_other :
      (events : Events) (id j : String) (e : DetectedEvent)
      → str_eq id j ≡ false
      → lookup str_eq j (insert str_eq id e events) ≡ lookup str_eq j events
  lookup-insert_other events id j e h = rw (lookup-insert str_eq eq_iff id j e events, h) refl

  -- The event that is returned is the stored one, and no other event changes. Either nothing
  -- changes, because the stored candidate equals the given one, or the event takes the candidate
  -- and the time, in the revision after its last one.
  apply_lem :
      (events : Events) (c : EventCandidate) (t : ℕ)
      → Applied events c t (apply digest same events c t).0 (apply digest same events c t).1
  unfolding apply apply_to new_event revised
  apply_lem events c t = elim (Option-cases (lookup str_eq (stable_id digest c) events)) [
    | inl missing ↦ rw missing (
      lookup-insert_same events _ _,
      λ j. lookup-insert_other events _ j _,
      inr (refl, refl, refl),
    )
    | inr (e, found) ↦ elim (Bool-cases (same e.candidate c)) [
      | inl equal ↦ rw (found, equal) (found, λ j h. refl, inl (refl, equal))
      | inr changed ↦
          rw (found, changed)
            (
              lookup-insert_same events _ _,
              λ j. lookup-insert_other events _ j _,
              inr (refl, refl, refl),
            )
    ]
  ]

  apply_equal :
      (events : Events) (c : EventCandidate) (t : ℕ) (e : DetectedEvent)
      → lookup str_eq (stable_id digest c) events ≡ some e
      → same e.candidate c ≡ true
      → apply digest same events c t ≡ (e, events)
  unfolding apply apply_to
  apply_equal events c t e found equal = rw (found, equal) refl

  -- A candidate that equals itself and is applied again, at any time, changes nothing and returns
  -- the same event.
  apply_again :
      (events : Events) (c : EventCandidate) (t u : ℕ)
      → same c c ≡ true
      → apply digest same (apply digest same events c t).1 c u ≡ apply digest same events c t
  apply_again events c t u self =
      let (stored, _, change) = apply_lem events c t in
      apply_equal (apply digest same events c t).1 c u _ stored
        (elim change [ inl unchanged ↦ unchanged.1 | inr replaced ↦ rw replaced.0 self ])
