-- ===== src/Game/Resolution/Snapshots.antt =====
-- The readings of one snapshot: at most one for each expected connector.
use mathlib.Core.Path.{subst}
use hz.Prelude.{
  ℕ, ◌≤◌, ◌≡◌, true, some, is_some, List, [], ◌∷◌, All, filter, length, Bool-cases, Option-cases,
  inl, inr, arith,
}
use hz.Prelude.Dicts.{Dict, lookup, items-lookup}
use hz.Prelude.Keys.{length-keys-le, keys_full}
use hz.Prelude.Members.{Mem-filter}
use hz.Prelude.Texts.{Text, text_eq, text_eq_iff, elem, distinct-Unique}
use hz.Game.Resolution.{
  Reading, Flows, Snapshot, Setting, group_before, best_group, expected_of, is_eligible,
}
use hz.Game.Resolution.Groups.{
  at_snapshot, latest_readings, IsLatestReading, latest_readings-Distinct,
  latest_readings-IsLatestReading,
}

module _ {F : Type 0} (flows : Flows F) (setting : Setting) (readings : List (Reading F)) where
  -- the eligible readings
  abbrev pub eligible : List (Reading F)
  eligible = filter (is_eligible flows setting) readings

  abbrev pub expected : List Text
  expected = expected_of flows setting

  pub best_group-All :
      (P : Snapshot × Dict Text (Reading F) → Type 0) (target : ℕ)
      (best : Snapshot × Dict Text (Reading F)) (gs : List (Snapshot × Dict Text (Reading F)))
      → P best
      → All P gs
      → P (best_group target best gs)
  unfolding best_group
  best_group-All P target best [] p h = p
  best_group-All P target best (g ∷ gs) p h = elim (Bool-cases (group_before target g best)) [
    | inl e ↦ rw e (best_group-All P target g gs h.0 h.1)
    | inr e ↦ rw e (best_group-All P target best gs p h.1)
  ]

  reading_expected :
      (s : Snapshot) (c : Text) (r : Reading F)
      → IsLatestReading (at_snapshot s eligible) c (some r)
      → elem c expected ≡ true
  unfolding is_eligible
  reading_expected s c r (among, same, greatest) =
      let (here, given) = Mem-filter _ r eligible among in
      let (fit, input) = Mem-filter (is_eligible flows setting) r readings given in
      let e : r.connector_id ≡ c = (text_eq_iff r.connector_id c).0 same in
      let known : elem r.connector_id expected ≡ true = ground arith in rw (← e) known

  items_expected :
      (s : Snapshot) (items : Dict Text (Reading F))
      → All (λ x. lookup text_eq x.0 (latest_readings (at_snapshot s eligible) []) ≡ some x.1) items
      → All (λ x. elem x.0 expected ≡ true) items
  items_expected s [] h = tt
  items_expected s ((c, r) ∷ items) h = (
    reading_expected s c r (
        subst (λ o. IsLatestReading (at_snapshot s eligible) c o) h.0
          (latest_readings-IsLatestReading (at_snapshot s eligible) c)),
    items_expected s items h.1,
  )

  abbrev pub snapshot_readings : Snapshot → Dict Text (Reading F)
  snapshot_readings s = latest_readings (at_snapshot s eligible) []

  keys_expected : (s : Snapshot) → All (λ x. elem x.0 expected ≡ true) (snapshot_readings s)
  keys_expected s = items_expected s (snapshot_readings s) (
      items-lookup text_eq text_eq_iff (snapshot_readings s)
        (latest_readings-Distinct (at_snapshot s eligible)))

  pub few_readings : (s : Snapshot) → length (snapshot_readings s) ≤ length expected
  few_readings s =
      length-keys-le text_eq text_eq_iff (snapshot_readings s) expected
        (distinct-Unique setting.registry.expected_connector_ids)
        (latest_readings-Distinct (at_snapshot s eligible)) (keys_expected s)

  -- the latest reading of each of some connectors in a snapshot
  abbrev pub HasReadings : Snapshot → List Text → Type 0
  HasReadings s cs =
      All (λ c. (r : Reading F) × IsLatestReading (at_snapshot s eligible) c (some r)) cs

  read :
      (s : Snapshot) (cs : List Text)
      → All (λ c. is_some (lookup text_eq c (snapshot_readings s)) ≡ true) cs
      → HasReadings s cs
  read s [] h = tt
  read s (c ∷ cs) h = elim (Option-cases (lookup text_eq c (snapshot_readings s))) [
    | inl missing ↦ absurd (ground (arith, h.0))
    | inr (r, e) ↦ (
      (
        r,
        subst (λ o. IsLatestReading (at_snapshot s eligible) c o) e
            (latest_readings-IsLatestReading (at_snapshot s eligible) c),
      ),
      read s cs h.1,
    )
  ]

  pub all_readings :
      (s : Snapshot) → length (snapshot_readings s) ≡ length expected → HasReadings s expected
  all_readings s full = read s expected (
      keys_full text_eq text_eq_iff (snapshot_readings s) expected
        (distinct-Unique setting.registry.expected_connector_ids)
        (latest_readings-Distinct (at_snapshot s eligible)) (keys_expected s) full)
