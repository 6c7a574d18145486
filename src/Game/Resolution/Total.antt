-- ===== src/Game/Resolution/Total.antt =====
-- Every prediction gets a resolution.
use mathlib.Core.Path.{subst}
use hz.Prelude.{
  ℕ, ◌<◌, ◌≡◌, ◌⊎◌, refl, sym, true, false, ◌&&◌, Option, none, some, List, [], ◌∷◌, All, filter,
  map, length, ◌==◌, Bool-cases, inl, inr, arith, leb, ltb, Result, ok, err,
}
use hz.Prelude.Dicts.{Dict}
use hz.Prelude.Texts.{Text}
use hz.Time.{Datetime, naive, aware}
use hz.Game.{
  GameError, naive_time, no_registry, ConnectorRegistry, connector_registry_for_date, newest_of,
}
use hz.Game.Resolution.{
  Reading, Flows, Snapshot, Setting, Coverage, PredictionResolution, void, grouped, best_group,
  coverage_of, without_evidence, with_evidence, decide, after_best, after_groups, closed_window,
  open_window, resolve_in, build_prediction_resolution, check_resolution, check_coverage,
  consistent, registry_or,
}
use hz.Game.Resolution.Groups.{IsGroup, grouped-IsGroup, grouped_some}
use hz.Game.Resolution.Snapshots.{
  eligible, expected, snapshot_readings, best_group-All, few_readings,
}

module _ {F : Type 0} (flows : Flows F) (setting : Setting) (readings : List (Reading F)) where
  abbrev Returns : Result GameError (PredictionResolution F) → Type 0
  Returns r = (res : PredictionResolution F) × (r ≡ ok res)

  void_total :
      (coverage : Coverage) (reason : _)
      → Returns (without_evidence flows setting void coverage reason)
  unfolding without_evidence check_resolution consistent
  void_total coverage reason = (_, refl)

  decide_total :
      (coverage : Coverage) (s : Snapshot) (rs : List (Reading F))
      → coverage.complete ≡ true
      → Returns (decide flows setting coverage s rs)
  unfolding decide with_evidence check_resolution consistent
  decide_total coverage s rs complete =
      let flow = flows.sum (map (λ r. r.megawatts) rs) in
      elim (Bool-cases (flows.is_near_balanced flow)) [
        | inl near ↦ rw near (_, refl)
        | inr far ↦ elim (Bool-cases (flows.is_positive flow)) [
          | inl positive ↦ rw (far, positive, complete) (_, refl)
          | inr negative ↦ rw (far, negative, complete) (_, refl)
        ]
      ]

  snapshot_total :
      (s : Snapshot)
      → Returns (after_best flows setting (s, snapshot_readings flows setting readings s))
  unfolding after_best coverage_of check_coverage
  snapshot_total s =
      let observed = length (snapshot_readings flows setting readings s) in
      let expected_count = length (expected flows setting readings) in
      let fits : ltb expected_count observed ≡ false =
        ground (arith, few_readings flows setting readings s) in
      elim (Bool-cases (ltb 0 expected_count && (observed == expected_count))) [
        | inl complete ↦ rw (fits, complete) (decide_total _ s _ refl)
        | inr incomplete ↦ rw (fits, incomplete) (void_total _ _)
      ]

  groups_total :
      (gs : List (Snapshot × Dict Text (Reading F)))
      → 0 < length gs
      → All (IsGroup (eligible flows setting readings)) gs
      → Returns (after_groups flows setting gs)
  unfolding after_groups
  groups_total [] some_group h = absurd (omega (arith, some_group))
  groups_total (g ∷ gs) some_group h = group_total (best_group setting.target_at g gs) (
      best_group-All flows setting readings (IsGroup (eligible flows setting readings))
        setting.target_at g gs h.0 h.1)
    where
      group_total :
          (g : Snapshot × Dict Text (Reading F))
          → IsGroup (eligible flows setting readings) g
          → Returns (after_best flows setting g)
      group_total (s, d) e =
          subst (λ x. Returns (after_best flows setting (s, x))) (sym e) (snapshot_total s)

  closed_total :
      (rs : List (Reading F))
      → All (IsGroup (eligible flows setting readings)) (grouped rs [])
      → Returns (closed_window flows setting rs)
  unfolding closed_window coverage_of check_coverage
  closed_total [] h =
      let fits : ltb (length (expected flows setting readings)) 0 ≡ false = ground arith in
      rw fits (void_total _ _)
  closed_total (r ∷ rest) h = groups_total (grouped (r ∷ rest) []) (grouped_some r rest) h

  open_total : Returns (open_window flows setting)
  unfolding open_window without_evidence coverage_of check_coverage check_resolution consistent
  open_total =
      let fits : ltb (length (expected flows setting readings)) 0 ≡ false = ground arith in
      rw fits (_, refl)

  pub resolve_in_total :
      (res : PredictionResolution F) × (resolve_in flows setting readings ≡ ok res)
  unfolding resolve_in
  resolve_in_total = elim (Bool-cases (ltb setting.computed_at setting.definition.resolves_to)) [
    | inl early ↦ rw early open_total
    | inr late ↦ rw late (
        closed_total (eligible flows setting readings)
          (grouped-IsGroup (eligible flows setting readings)))
  ]

newest_of-cases :
    (registries : List ConnectorRegistry)
    → ((registry : ConnectorRegistry) × (newest_of registries ≡ ok registry))
      ⊎ ((newest_of registries ≡ err no_registry) × (registries ≡ []))
unfolding newest_of
newest_of-cases [] = inr (refl, refl)
newest_of-cases (r ∷ rest) = inl (_, refl)

module _ {F : Type 0} (flows : Flows F) (at_local : ℕ → ℕ → ℕ) (registries : List ConnectorRegistry)
    (day : ℕ) (readings : List (Reading F)) where
  -- The resolution of a day raises only for a naive time or where no registry covers the day; no check
  -- of a model fails, whatever the readings are.
  pub build_prediction_resolution_errors :
      (as_of : Datetime) (given : Option ConnectorRegistry)
      → let r = build_prediction_resolution flows at_local registries day as_of readings given in
        ((res : PredictionResolution F) × (r ≡ ok res))
        ⊎ ((r ≡ err naive_time) × (as_of ≡ naive))
        ⊎ ((r ≡ err no_registry)
            × (given ≡ none)
            × (filter (λ x. leb x.effective_from day) registries ≡ []))
  unfolding build_prediction_resolution registry_or connector_registry_for_date
  build_prediction_resolution_errors naive given = inr (inl (refl, refl))
  build_prediction_resolution_errors (aware t) (some registry) =
      inl (resolve_in_total flows _ readings)
  build_prediction_resolution_errors (aware t) none =
      elim (newest_of-cases (filter (λ x. leb x.effective_from day) registries)) [
        | inl (registry, e) ↦ rw e (inl (resolve_in_total flows _ readings))
        | inr (missing, none_left) ↦ rw missing (inr (inr (refl, refl, none_left)))
      ]
