-- ===== src/Game/Resolution/Groups.antt =====
-- What the grouped readings hold.
use hz.Prelude.{
  ◌<◌, ◌≡◌, ◌↔◌, refl, sym, ◌∙◌, ap, true, Option, some, List, [], ◌∷◌, All, filter, length,
  Bool-cases, inl, inr, arith,
}
use hz.Prelude.Dicts.{Dict, lookup, insert, Distinct, lookup-insert, insert-Distinct, items-lookup}
use hz.Prelude.Latest.{latest, IsLatest, latest-IsLatest, latest-Distinct}
use hz.Prelude.Texts.{Text, text_eq, text_eq_iff}
use hz.Game.Resolution.{
  Reading, Snapshot, same_snapshot, snapshot_of, or_new, keep_reading, grouped,
  reading_revision_key,
}

pub same_snapshot_iff : (a b : Snapshot) → (same_snapshot a b ≡ true) ↔ (a ≡ b)
same_snapshot_iff (t, s) (u, r) = (
  λ h. ground (arith, (text_eq_iff s r).0),
  λ e.
      let times = ap (λ (k : Snapshot). k.0) e in
      let sources = (text_eq_iff s r).1 (ap (λ (k : Snapshot). k.1) e) in ground arith,
)

module _ {F : Type 0} where
  -- the readings of one snapshot
  abbrev pub at_snapshot : Snapshot → List (Reading F) → List (Reading F)
  at_snapshot s rs = filter (λ r. same_snapshot (snapshot_of r) s) rs

  -- The loop for one snapshot.
  abbrev pub latest_readings : List (Reading F) → Dict Text (Reading F) → Dict Text (Reading F)
  latest_readings = latest text_eq (λ x. x.connector_id) reading_revision_key

  -- a reading kept for a connector of a snapshot
  abbrev pub IsLatestReading : List (Reading F) → Text → Option (Reading F) → Type 0
  IsLatestReading = IsLatest text_eq (λ x. x.connector_id) reading_revision_key

  grouped-lookup :
      (s : Snapshot) (rs : List (Reading F)) (d : Dict Snapshot (Dict Text (Reading F)))
      → or_new (lookup same_snapshot s (grouped rs d))
        ≡ latest_readings (at_snapshot s rs) (or_new (lookup same_snapshot s d))
  unfolding grouped latest keep_reading
  grouped-lookup s [] d = refl
  grouped-lookup s (r ∷ rest) d =
      let k = snapshot_of r in
      let kept = keep_reading r (or_new (lookup same_snapshot k d)) in
      let ih = grouped-lookup s rest (insert same_snapshot k kept d) in
      elim (Bool-cases (same_snapshot k s)) [
        | inl same ↦
            let e : k ≡ s = (same_snapshot_iff k s).0 same in
            rw same
              (ih ∙ rw (lookup-insert same_snapshot same_snapshot_iff k s kept d, same, e) refl)
        | inr other ↦
            rw other
              (ih ∙ rw (lookup-insert same_snapshot same_snapshot_iff k s kept d, other) refl)
      ]

  grouped-Distinct :
      (rs : List (Reading F)) (d : Dict Snapshot (Dict Text (Reading F)))
      → Distinct same_snapshot d
      → Distinct same_snapshot (grouped rs d)
  unfolding grouped
  grouped-Distinct [] d h = h
  grouped-Distinct (r ∷ rest) d h = grouped-Distinct rest _ (
      insert-Distinct same_snapshot same_snapshot_iff (snapshot_of r)
        (keep_reading r (or_new (lookup same_snapshot (snapshot_of r) d))) d h)

  -- an item of the groups: what the loop keeps of the readings of its snapshot
  abbrev pub IsGroup : List (Reading F) → Snapshot × Dict Text (Reading F) → Type 0
  IsGroup rs (s, d) = d ≡ latest_readings (at_snapshot s rs) []

  items-IsGroup :
      (rs : List (Reading F)) (items : Dict Snapshot (Dict Text (Reading F)))
      → All (λ x. lookup same_snapshot x.0 (grouped rs []) ≡ some x.1) items
      → All (IsGroup rs) items
  unfolding lookup
  items-IsGroup rs [] h = tt
  items-IsGroup rs ((s, d) ∷ items) h =
      (ap or_new (sym h.0) ∙ grouped-lookup s rs [], items-IsGroup rs items h.1)

  pub grouped-IsGroup : (rs : List (Reading F)) → All (IsGroup rs) (grouped rs [])
  grouped-IsGroup rs =
      items-IsGroup rs (grouped rs [])
        (items-lookup same_snapshot same_snapshot_iff (grouped rs []) (grouped-Distinct rs [] tt))

  insert_some :
      (s : Snapshot) (v : Dict Text (Reading F)) (d : Dict Snapshot (Dict Text (Reading F)))
      → 0 < length (insert same_snapshot s v d)
  unfolding insert
  insert_some s v [] = omega arith
  insert_some s v ((k, w) ∷ d) = ground arith

  grouped_grows :
      (rs : List (Reading F)) (d : Dict Snapshot (Dict Text (Reading F)))
      → 0 < length d
      → 0 < length (grouped rs d)
  unfolding grouped
  grouped_grows [] d h = h
  grouped_grows (r ∷ rest) d h = grouped_grows rest _ (insert_some (snapshot_of r) _ d)

  -- Where there is a reading, there is a group.
  pub grouped_some : (r : Reading F) (rest : List (Reading F)) → 0 < length (grouped (r ∷ rest) [])
  unfolding grouped
  grouped_some r rest = grouped_grows rest _ (insert_some (snapshot_of r) _ [])

  -- The readings kept for a snapshot have distinct connectors, each with its latest reading.
  pub latest_readings-Distinct : (rs : List (Reading F)) → Distinct text_eq (latest_readings rs [])
  latest_readings-Distinct rs =
      latest-Distinct text_eq (λ x. x.connector_id) reading_revision_key text_eq_iff rs [] tt

  pub latest_readings-IsLatestReading :
      (rs : List (Reading F)) (c : Text)
      → IsLatestReading rs c (lookup text_eq c (latest_readings rs []))
  latest_readings-IsLatestReading rs c =
      latest-IsLatest text_eq (λ x. x.connector_id) reading_revision_key text_eq_iff c rs
