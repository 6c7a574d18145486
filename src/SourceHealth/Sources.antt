-- ===== src/SourceHealth/Sources.antt =====
-- Which sources a response presents, and that it is built.
use hz.Prelude.{
  ◌-◌, ◌*◌, ◌/◌, ◌≤◌, ◌≢◌, ◌↔◌, ◌⊎◌, sym, max, some, inl, inr, Bool-cases, ok_unique, ℕ, ◌<◌, ◌≡◌,
  refl, String, Option, none, List, [], ◌∷◌, All, false, filter, length, arith, ok, str_eq, leb,
}
use hz.Prelude.Dicts.{Dict, lookup}
use hz.Time.{Datetime, naive, aware}
use hz.SourceHealth.{
  SourceDeliveryState, healthy, stale, unavailable, SourceMetadata, SourceRunSummary,
  DataFamilyStatus, SourceHealthStatus, SourceHealthResponse, present_source, present_all,
  build_source_health, lag_of, succeeded_at, attempted_at, check_status, is_naive, delivery_state,
  given, age,
}

-- The times of a run are aware.
abbrev pub IsTimed : Option SourceRunSummary → Type 0
IsTimed none = Unit {0}
IsTimed (some run) =
    (is_naive run.last_attempted_at ≡ false) × (is_naive run.last_succeeded_at ≡ false)

-- How a lag and a state tell of the last success of a source with this cadence: without one there is
-- no lag, and otherwise the lag is the number of whole seconds since. Deliveries are healthy up to
-- twice the cadence or 60 seconds, delayed below four times the cadence or 300 seconds, then stale.
pub record IsDelivery (cadence lag : ℕ) (delivery : SourceDeliveryState) : Type 0 where
  pub in_time : (delivery ≡ healthy) ↔ ((lag ≤ cadence * 2) ⊎ (lag ≤ 60))
  pub late : (delivery ≡ stale) ↔ ((cadence * 4 ≤ lag) × (300 ≤ lag))
  pub known : delivery ≢ unavailable

abbrev pub IsLagOf : ℕ → ℕ → Option Datetime → Option ℕ → SourceDeliveryState → Type 0
IsLagOf now cadence none lag delivery = (lag ≡ none) × (delivery ≡ unavailable)
IsLagOf now cadence (some naive) lag delivery = ⊥
IsLagOf now cadence (some (aware t)) lag delivery =
    (lag ≡ some ((now - t) / 1000000)) × IsDelivery cadence ((now - t) / 1000000) delivery

-- what a presented status says of its source
abbrev pub IsStatusOf : ℕ → SourceMetadata → Option SourceRunSummary → SourceHealthStatus → Type 0
IsStatusOf now source none status =
    (status.source_id ≡ source.id)
    × IsLagOf now source.expected_cadence_seconds none status.delivery_lag_seconds
        status.delivery_state
IsStatusOf now source (some run) status =
    (status.source_id ≡ source.id)
    × IsLagOf now source.expected_cadence_seconds run.last_succeeded_at status.delivery_lag_seconds
        status.delivery_state

below_max : (lag a b : ℕ) → lag ≤ max a b → (lag ≤ a) ⊎ (lag ≤ b)
below_max lag a b h = elim (Bool-cases (leb lag a)) [
  | inl e ↦ inl (ground arith)
  | inr e ↦ inr (ground arith)
]

delivery_state-IsDelivery :
    (cadence lag : ℕ) → 0 < cadence → IsDelivery cadence lag (delivery_state cadence (some lag))
unfolding delivery_state
delivery_state-IsDelivery cadence lag positive = record {
  in_time = (λ h. below_max lag (cadence * 2) 60 (ground arith), λ h. ground arith);
  late = (λ h. ground arith, λ h. ground arith);
  known = λ h. ground arith;
}

delivery_state-IsLagOf :
    (now cadence : ℕ) (t : Option Datetime) (lag : Option ℕ)
    → 0 < cadence
    → lag_of now t ≡ ok lag
    → IsLagOf now cadence t lag (delivery_state cadence lag)
unfolding lag_of age delivery_state
delivery_state-IsLagOf now cadence none lag positive h =
    let same = ok_unique (ok none) none lag refl h in (sym same, rw (← same) refl)
delivery_state-IsLagOf now cadence (some naive) lag positive h = ground arith
delivery_state-IsLagOf now cadence (some (aware t)) lag positive h =
    let same = ok_unique (ok _) (some ((now - t) / 1000000)) lag refl h in
    (sym same, rw (← same) (delivery_state-IsDelivery cadence ((now - t) / 1000000) positive))

lag_of_total :
    (now : ℕ) (t : Option Datetime)
    → is_naive t ≡ false
    → (lag : Option ℕ) × (lag_of now t ≡ ok lag)
unfolding lag_of is_naive age
lag_of_total now none h = (none, refl)
lag_of_total now (some naive) h = ground arith
lag_of_total now (some (aware t)) h = (_, refl)

present_source_total :
    (source : SourceMetadata) (run : Option SourceRunSummary) (now : ℕ)
    (statuses : List DataFamilyStatus)
    → 0 < source.expected_cadence_seconds
    → IsTimed run
    → (status : SourceHealthStatus) × (present_source source run now statuses ≡ ok status)
      × IsStatusOf now source run status
unfolding present_source check_status succeeded_at attempted_at lag_of is_naive
present_source_total source none now statuses pos timed =
    let positive : leb source.expected_cadence_seconds 0 ≡ false = ground arith in
    rw positive (
      _,
      refl,
      (refl, delivery_state-IsLagOf now source.expected_cadence_seconds none none pos refl),
    )
present_source_total source (some run) now statuses pos (attempted, succeeded) =
    let (lag, e) = lag_of_total now run.last_succeeded_at succeeded in
    let positive : leb source.expected_cadence_seconds 0 ≡ false = ground arith in
    rw (e, positive, attempted, succeeded)
      (
        _,
        refl,
        (
          refl,
          delivery_state-IsLagOf now source.expected_cadence_seconds run.last_succeeded_at lag pos
              e,
        ),
      )

abbrev pub IsTimely : Dict String SourceRunSummary → SourceMetadata → Type 0
IsTimely runs source =
    (0 < source.expected_cadence_seconds) × IsTimed (lookup str_eq source.id runs)

-- statuses of the sources, one by one
abbrev pub StatusesOf :
    ℕ → Dict String SourceRunSummary → List SourceMetadata → List SourceHealthStatus → Type 0
StatusesOf now runs [] [] = Unit {0}
StatusesOf now runs (source ∷ sources) (status ∷ statuses) =
    IsStatusOf now source (lookup str_eq source.id runs) status
    × StatusesOf now runs sources statuses
StatusesOf now runs _ _ = ⊥

present_all_total :
    (sources : List SourceMetadata) (runs : Dict String SourceRunSummary) (now : ℕ)
    (statuses : List DataFamilyStatus)
    → All (IsTimely runs) sources
    → (presented : List SourceHealthStatus) × (present_all sources runs now statuses ≡ ok presented)
      × StatusesOf now runs sources presented
unfolding present_all
present_all_total [] runs now statuses timely = ([], refl, tt)
present_all_total (source ∷ rest) runs now statuses ((positive, timed), later) =
    let (status, e, is_status) =
      present_source_total source (lookup str_eq source.id runs) now statuses positive timed in
    let (presented, e', are_statuses) = present_all_total rest runs now statuses later in
    (status ∷ presented, rw (e, e') refl, (is_status, are_statuses))

-- With an aware time of evaluation, and with positive cadences and aware times of the last runs for
-- the active sources, a response is built. It presents the active sources and no others, in their
-- order and each under its own identifier, and counts them. A source without a last success is
-- unavailable and has no lag. Any other source's lag is the whole seconds since its last success; the
-- source is healthy exactly if that is at most twice its cadence or at most 60, stale exactly if it is
-- at least four times the cadence and at least 300, and otherwise delayed.
pub build_source_health_total :
    (sources : List SourceMetadata) (runs : Dict String SourceRunSummary) (now : ℕ)
    (statuses : Option (List DataFamilyStatus))
    → All (IsTimely runs) (filter (λ s. s.active) sources)
    → (response : SourceHealthResponse) × (build_source_health sources runs (aware now) statuses
        ≡ ok response)
      × StatusesOf now runs (filter (λ s. s.active) sources) response.sources
      × (response.source_count ≡ length response.sources)
unfolding build_source_health
build_source_health_total sources runs now statuses timely =
    let (presented, e, are_statuses) =
      present_all_total (filter (λ s. s.active) sources) runs now (given statuses) timely in
    (
      record { evaluated_at = now; source_count = length presented; sources = presented },
      rw e refl,
      are_statuses,
      refl,
    )
