-- ===== src/Charging/Coverage.antt =====
-- A window that is found is covered by forecast points, and the search ends.
use hz.Prelude.{
  ℕ, zero, suc, ◌+◌, ◌-◌, ◌≤◌, ◌<◌, ◌≡◌, refl, min, true, Option, none, some, List, arith, inl, inr,
  leb, ltb, ◌==◌, get_elem?, Bool-cases, Option-cases, ◌&&◌,
}
use hz.Prelude.Dicts.{Dict, lookup}
use hz.Charging.{
  Arithmetic, PreparedPoint, CalculatedWindow, Sums, point_covering, point_at, started, held,
  holding, bisect_right, walk, extend, walked, calculated, window_at, no_sums, add_segment,
}

module _ {F : Type 0} where
  -- an instant at which one of the points holds
  abbrev pub Covered : Dict ℕ (PreparedPoint F) → ℕ → Type 0
  Covered points t =
      (s : ℕ) × (p : PreparedPoint F) × (lookup ◌==◌ s points ≡ some p)
      × (p.start ≤ t)
      × (t < p.end)

  held_lem :
      (instant : ℕ) (found : Option (PreparedPoint F)) (p : PreparedPoint F)
      → held instant found ≡ some p
      → (found ≡ some p) × (p.start ≤ instant) × (instant < p.end)
  unfolding held holding
  held_lem instant none p h = absurd (ground arith)
  held_lem instant (some q) p h = elim (Bool-cases (leb q.start instant && ltb instant q.end)) [
    | inl inside ↦
        let at : some q ≡ some p = rw inside at h in
        let same : q ≡ p = ground arith in rw (← same) (refl, ground arith, ground arith)
    | inr outside ↦ absurd (ground arith)
  ]

  started_lem :
      (points : Dict ℕ (PreparedPoint F)) (start : Option ℕ) (p : PreparedPoint F)
      → started points start ≡ some p
      → (s : ℕ) × (lookup ◌==◌ s points ≡ some p)
  unfolding started
  started_lem points none p h = absurd (ground arith)
  started_lem points (some s) p h = (s, h)

  point_at_lem :
      (points : Dict ℕ (PreparedPoint F)) (starts : List ℕ) (n : ℕ) (p : PreparedPoint F)
      → point_at points starts n ≡ some p
      → (s : ℕ) × (lookup ◌==◌ s points ≡ some p)
  unfolding point_at
  point_at_lem points starts zero p h = absurd (ground arith)
  point_at_lem points starts (suc n) p h = started_lem points (get_elem? starts n) p h

  point_covering-Covered :
      (points : Dict ℕ (PreparedPoint F)) (starts : List ℕ) (t : ℕ) (p : PreparedPoint F)
      → point_covering points starts t ≡ some p
      → (s : ℕ) × (lookup ◌==◌ s points ≡ some p) × (p.start ≤ t) × (t < p.end)
  unfolding point_covering
  point_covering-Covered points starts t p h =
      let (at, from, until) = held_lem t (point_at points starts (bisect_right starts t)) p h in
      let (s, e) = point_at_lem points starts (bisect_right starts t) p at in (s, e, from, until)

module _ {F : Type 0} (arithmetic : Arithmetic F) (points : Dict ℕ (PreparedPoint F))
    (starts : List ℕ) where
  walk_total :
      (fuel target cursor : ℕ) (sums : Sums F)
      → target - cursor < fuel
      → (r : Option (Sums F)) × (walk arithmetic fuel points starts target cursor sums ≡ some r)
  unfolding walk extend
  walk_total zero target cursor sums h = absurd (omega (arith, h))
  walk_total (suc fuel) target cursor sums h = elim (Bool-cases (ltb cursor target)) [
    | inr done ↦ (some sums, rw done refl)
    | inl more ↦ elim (Option-cases (point_covering points starts cursor)) [
      | inl missing ↦ (none, rw (more, missing) refl)
      | inr (p, found) ↦ elim (Bool-cases (leb (min p.end target) cursor)) [
        | inl stuck ↦ (none, rw (more, found, stuck) refl)
        | inr moved ↦
            let enough : target - min p.end target < fuel = ground arith in
            let (r, e) =
              walk_total fuel target (min p.end target)
                (add_segment arithmetic sums p (min p.end target - cursor)) enough in
            (r, rw (more, found, moved) e)
      ]
    ]
  ]

  walk-Covered :
      (fuel target cursor : ℕ) (sums r : Sums F)
      → walk arithmetic fuel points starts target cursor sums ≡ some (some r)
      → (t : ℕ) → cursor ≤ t
      → t < target
      → Covered points t
  unfolding walk extend
  walk-Covered zero target cursor sums r h t from until = absurd (ground arith)
  walk-Covered (suc fuel) target cursor sums r h t from until =
      let more : ltb cursor target ≡ true = ground arith in
      elim (Option-cases (point_covering points starts cursor)) [
        | inl missing ↦ let stopped = rw (more, missing) at h in absurd (ground arith)
        | inr (p, found) ↦ elim (Bool-cases (leb (min p.end target) cursor)) [
          | inl stuck ↦ let stopped = rw (more, found, stuck) at h in absurd (ground arith)
          | inr moved ↦
              let rest = rw (more, found, moved) at h in
              let (s, e, starts_by, ends_after) =
                point_covering-Covered points starts cursor p found in
              elim (Bool-cases (ltb t (min p.end target))) [
                | inl here ↦ (s, p, e, omega arith, ground arith)
                | inr later ↦
                    let onward : min p.end target ≤ t = ground arith in
                    walk-Covered fuel target (min p.end target)
                      (add_segment arithmetic sums p (min p.end target - cursor)) r rest t onward
                      until
              ]
        ]
      ]

  walked_total :
      (start duration : ℕ) (r : Option (Sums F))
      → (w : Option (CalculatedWindow F)) × (walked arithmetic start duration (some r) ≡ some w)
  unfolding walked
  walked_total start duration none = (none, refl)
  walked_total start duration (some sums) = (calculated arithmetic start duration sums, refl)

  -- The search for a window ends within its fuel, for every list of points.
  pub window_at_total :
      (start duration : ℕ)
      → (w : Option (CalculatedWindow F)) × (window_at arithmetic points starts start duration
          ≡ some w)
  unfolding window_at
  window_at_total start duration =
      let (r, e) =
        walk_total (suc duration) (start + duration) start (no_sums arithmetic) (omega arith) in
      rw e (walked_total start duration r)

  calculated_bounds :
      (start duration : ℕ) (sums : Sums F) (w : CalculatedWindow F)
      → calculated arithmetic start duration sums ≡ some w
      → (w.public.start ≡ start) × (w.public.end ≡ start + duration)
  unfolding calculated
  calculated_bounds start duration sums w h =
      elim (Bool-cases (arithmetic.equal sums.covered_seconds (arithmetic.of_duration duration))) [
        | inl covered ↦ let made = rw covered at h in (ground arith, ground arith)
        | inr short ↦ let made = rw short at h in absurd (ground arith)
      ]

  walked_bounds :
      (start duration : ℕ) (r : Option (Option (Sums F))) (w : CalculatedWindow F)
      → walked arithmetic start duration r ≡ some (some w)
      → ((sums : Sums F) × (r ≡ some (some sums)))
        × (w.public.start ≡ start)
        × (w.public.end ≡ start + duration)
  unfolding walked
  walked_bounds start duration none w h = absurd (ground arith)
  walked_bounds start duration (some none) w h = absurd (ground arith)
  walked_bounds start duration (some (some sums)) w h =
      let made : calculated arithmetic start duration sums ≡ some w = ground arith in
      let (from, until) = calculated_bounds start duration sums w made in
      ((sums, refl), from, until)

  -- A window that is found starts where it was asked to, has the whole duration, and each instant
  -- of it is covered by a forecast point.
  pub window_at-Covered :
      (start duration : ℕ) (w : CalculatedWindow F)
      → window_at arithmetic points starts start duration ≡ some (some w)
      → (w.public.start ≡ start)
        × (w.public.end ≡ start + duration)
        × ((t : ℕ) → start ≤ t → t < start + duration → Covered points t)
  unfolding window_at
  window_at-Covered start duration w h =
      let walking =
        walk arithmetic (suc duration) points starts (start + duration) start
          (no_sums arithmetic) in
      let ((sums, e), from, until) = walked_bounds start duration walking w h in
      (
        from,
        until,
        walk-Covered (suc duration) (start + duration) start (no_sums arithmetic) sums e,
      )
