-- ===== src/Game/Resolution/Evidence.antt =====
-- What a resolved prediction rests on.
use mathlib.Core.Path.{subst}
use hz.Prelude.{
  ◌≤◌, ◌<◌, ◌≡◌, refl, sym, false, ◌&&◌, some, is_some, List, [], ◌∷◌, All, map, length, ◌==◌,
  Bool-cases, inl, inr, if◌then◌else◌, arith, ltb, Result, ok, err,
}
use hz.Prelude.Dicts.{Dict}
use hz.Prelude.Texts.{Text}
use hz.Game.{GameError, importing, exporting}
use hz.Game.Resolution.{
  Reading, Flows, Snapshot, Setting, Coverage, PredictionResolution, resolved, void, grouped,
  best_group, chosen_of, coverage_of, expected_of, without_evidence, with_evidence, decide,
  after_best, after_groups, closed_window, open_window, resolve_in, check_resolution,
  check_coverage, consistent,
}
use hz.Game.Resolution.Groups.{IsGroup, grouped-IsGroup}
use hz.Game.Resolution.Snapshots.{
  eligible, expected, snapshot_readings, HasReadings, best_group-All, few_readings, all_readings,
}

module _ {F : Type 0} (flows : Flows F) (setting : Setting) (readings : List (Reading F)) where
  -- the signed net flow of a snapshot
  abbrev pub net_flow : Snapshot → F
  net_flow s =
      flows.sum (map (λ r. r.megawatts) (chosen_of ((snapshot_readings flows setting readings) s)))

  -- The evidence window is closed, and the resolution has its outcome and value from one snapshot: a
  -- time and a source with, for each expected connector, the latest of the eligible readings. Their
  -- net flow is not nearly balanced, and its sign is the outcome.
  pub record IsSupported (res : PredictionResolution F) : Type 0 where
    pub snapshot : Snapshot
    pub closed : setting.definition.resolves_to ≤ setting.computed_at
    pub expecting : 0 < length (expected_of flows setting)
    pub complete : (HasReadings flows setting readings) snapshot (expected_of flows setting)
    pub decisive : flows.is_near_balanced (net_flow snapshot) ≡ false
    pub outcome :
        res.outcome ≡ some (if flows.is_positive (net_flow snapshot) then importing else exporting)
    pub value : res.observed_value_mw ≡ some (flows.round (net_flow snapshot))
    pub seen : (res.observed_at ≡ some snapshot.0) × (res.source_ids ≡ snapshot.1 ∷ [])

  abbrev Claims : Result GameError (PredictionResolution F) → Type 0
  Claims (err e) = Unit {0}
  Claims (ok res) = res.state ≡ resolved → IsSupported res

  check-Claims :
      (res : PredictionResolution F)
      → (res.state ≡ resolved → IsSupported res)
      → Claims (check_resolution res)
  unfolding check_resolution
  check-Claims res h =
      elim (Bool-cases (
        consistent res.state (is_some res.outcome) (is_some res.observed_value_mw)
          (is_some res.observed_at) res.coverage.complete)) [ inl e ↦ rw e h | inr e ↦ rw e tt ]

  void-Claims :
      (coverage : Coverage) (reason : _)
      → Claims (without_evidence flows setting void coverage reason)
  unfolding without_evidence
  void-Claims coverage reason = check-Claims _ (λ h. absurd (ground arith))

  decide-Claims :
      (coverage : Coverage) (s : Snapshot)
      → setting.definition.resolves_to ≤ setting.computed_at
      → 0 < length (expected flows setting readings)
      → (HasReadings flows setting readings) s (expected flows setting readings)
      → Claims (
          decide flows setting coverage s
            (chosen_of ((snapshot_readings flows setting readings) s)))
  unfolding decide with_evidence
  decide-Claims coverage s closed some_expected all =
      elim (Bool-cases (flows.is_near_balanced (net_flow s))) [
        | inl near ↦ rw near (check-Claims _ (λ h. absurd (ground arith)))
        | inr far ↦ elim (Bool-cases (flows.is_positive (net_flow s))) [
          | inl positive ↦
              rw (far, positive)
                (check-Claims _ (λ h. record {
                  snapshot = s;
                  closed = closed;
                  expecting = some_expected;
                  complete = all;
                  decisive = far;
                  outcome = rw positive refl;
                  value = refl;
                  seen = (refl, refl);
                }))
          | inr negative ↦
              rw (far, negative)
                (check-Claims _ (λ h. record {
                  snapshot = s;
                  closed = closed;
                  expecting = some_expected;
                  complete = all;
                  decisive = far;
                  outcome = rw negative refl;
                  value = refl;
                  seen = (refl, refl);
                }))
        ]
      ]

  snapshot-Claims :
      (s : Snapshot)
      → setting.definition.resolves_to ≤ setting.computed_at
      → Claims (after_best flows setting (s, (snapshot_readings flows setting readings) s))
  unfolding after_best coverage_of check_coverage
  snapshot-Claims s closed =
      let fits : ltb (length (expected flows setting readings))
            (length ((snapshot_readings flows setting readings) s))
          ≡ false =
        ground (arith, (few_readings flows setting readings) s) in
      elim (Bool-cases (
        ltb 0 (length (expected flows setting readings))
        && (length ((snapshot_readings flows setting readings) s)
            == length (expected flows setting readings)))) [
              | inl complete ↦
                  let full : length ((snapshot_readings flows setting readings) s)
                      ≡ length (expected flows setting readings) =
                    ground arith in
                  let some_expected : 0 < length (expected flows setting readings) = ground arith in
                  rw (fits, complete)
                    (decide-Claims _ s closed some_expected
                      ((all_readings flows setting readings) s full))
              | inr incomplete ↦ rw (fits, incomplete) (void-Claims _ _)
            ]

  group-Claims :
      (g : Snapshot × Dict Text (Reading F))
      → setting.definition.resolves_to ≤ setting.computed_at
      → IsGroup (eligible flows setting readings) g
      → Claims (after_best flows setting g)
  group-Claims (s, d) closed h =
      subst (λ x. Claims (after_best flows setting (s, x))) (sym h) (snapshot-Claims s closed)

  groups-Claims :
      (gs : List (Snapshot × Dict Text (Reading F)))
      → setting.definition.resolves_to ≤ setting.computed_at
      → All (IsGroup (eligible flows setting readings)) gs
      → Claims (after_groups flows setting gs)
  unfolding after_groups
  groups-Claims [] closed h = tt
  groups-Claims (g ∷ gs) closed h = group-Claims (best_group setting.target_at g gs) closed (
      (best_group-All flows setting readings) (IsGroup (eligible flows setting readings))
        setting.target_at g gs h.0 h.1)

  closed-Claims :
      (rs : List (Reading F))
      → setting.definition.resolves_to ≤ setting.computed_at
      → All (IsGroup (eligible flows setting readings)) (grouped rs [])
      → Claims (closed_window flows setting rs)
  unfolding closed_window coverage_of check_coverage
  closed-Claims [] closed h =
      let fits : ltb (length (expected flows setting readings)) 0 ≡ false = ground arith in
      rw fits (void-Claims _ _)
  closed-Claims (r ∷ rest) closed h = groups-Claims (grouped (r ∷ rest) []) closed h

  open-Claims : Claims (open_window flows setting)
  unfolding open_window without_evidence coverage_of check_coverage
  open-Claims =
      let fits : ltb (length (expected flows setting readings)) 0 ≡ false = ground arith in
      rw fits (check-Claims _ (λ h. absurd (ground arith)))

  resolve_in-Claims : Claims (resolve_in flows setting readings)
  unfolding resolve_in
  resolve_in-Claims = elim (Bool-cases (ltb setting.computed_at setting.definition.resolves_to)) [
    | inl early ↦ rw early open-Claims
    | inr late ↦
        let closed : setting.definition.resolves_to ≤ setting.computed_at = ground arith in
        rw late (
          closed-Claims (eligible flows setting readings) closed
            (grouped-IsGroup (eligible flows setting readings)))
  ]

  -- A prediction is resolved only after its evidence window has closed, and on complete evidence: on
  -- the latest eligible readings that one source has of all expected connectors at one time, by the
  -- sign of their net flow, which is outside the void band.
  pub resolve_in-IsSupported :
      (res : PredictionResolution F)
      → resolve_in flows setting readings ≡ ok res
      → res.state ≡ resolved
      → IsSupported res
  resolve_in-IsSupported res h = subst Claims h resolve_in-Claims
