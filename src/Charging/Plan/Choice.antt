-- ===== src/Charging/Plan/Choice.antt =====
-- Which candidate the planner recommends.
use mathlib.Core.Logic.Or
use mathlib.Core.List.{Mem, mem-cons, mem-cons_self, mem-cons_of_mem}
use hz.Prelude.{◌≤◌, ◌≡◌, true, false, List, [], ◌∷◌, All, Bool-cases, inl, inr, arith}
use hz.Prelude.Int.{ℤ, ltb_ℤ, eq_ℤ, ◌≤ℤ◌}
use hz.Charging.{Arithmetic, CalculatedWindow}
use hz.Charging.Plan.{precedes, better, recommended}

module _ {F : Type 0} (number : F → ℤ) where
  -- The average of `v` is at most that of `w`, and of windows of one average `v` starts no later.
  pub record IsNoWorse (v w : CalculatedWindow F) : Type 0 where
    pub average : number v.raw_average ≤ℤ number w.raw_average
    pub start : number w.raw_average ≤ℤ number v.raw_average → v.public.start ≤ w.public.start

  self-IsNoWorse : (v : CalculatedWindow F) → IsNoWorse v v
  self-IsNoWorse v = record { average = omega arith; start = λ h. omega arith }

  trans-IsNoWorse : (u v w : CalculatedWindow F) → IsNoWorse u v → IsNoWorse v w → IsNoWorse u w
  trans-IsNoWorse u v w h k = record {
    average = omega (arith, h.average, k.average);
    start = λ low.
        let first = h.start (omega (arith, k.average, low)) in
        let second = k.start (omega (arith, h.average, low)) in omega arith;
  }

-- The floats are compared as the numbers that they stand for.
module _ {F : Type 0} (arithmetic : Arithmetic F) (number : F → ℤ)
    (less_number : (a b : F) → arithmetic.less a b ≡ ltb_ℤ (number a) (number b))
    (equal_number : (a b : F) → arithmetic.equal a b ≡ eq_ℤ (number a) (number b)) where
  precedes-IsNoWorse :
      (v w : CalculatedWindow F) → precedes arithmetic v w ≡ true → IsNoWorse number v w
  unfolding precedes
  precedes-IsNoWorse v w h =
      let less = less_number v.raw_average w.raw_average in
      let same = equal_number v.raw_average w.raw_average in
      record { average = ground arith; start = λ low. ground arith }

  stays-IsNoWorse :
      (v w : CalculatedWindow F) → precedes arithmetic w v ≡ false → IsNoWorse number v w
  unfolding precedes
  stays-IsNoWorse v w h =
      let less = less_number w.raw_average v.raw_average in
      let same = equal_number w.raw_average v.raw_average in
      record { average = ground arith; start = λ low. ground arith }

  better_lem :
      (best w : CalculatedWindow F)
      → IsNoWorse number (better arithmetic best w) best
        × IsNoWorse number (better arithmetic best w) w
  unfolding better
  better_lem best w = elim (Bool-cases (precedes arithmetic w best)) [
    | inl e ↦ rw e (precedes-IsNoWorse w best e, self-IsNoWorse number w)
    | inr e ↦ rw e (self-IsNoWorse number best, stays-IsNoWorse best w e)
  ]

  recommended-Mem :
      (best : CalculatedWindow F) (ws : List (CalculatedWindow F))
      → Mem (recommended arithmetic best ws) (best ∷ ws)
  unfolding recommended better
  recommended-Mem best [] = mem-cons_self
  recommended-Mem best (w ∷ ws) = elim (Bool-cases (precedes arithmetic w best)) [
    | inl e ↦ rw e (mem-cons_of_mem best (recommended-Mem w ws))
    | inr e ↦ rw e (skipped (recommended-Mem best ws))
  ]
    where
      skipped : {v : CalculatedWindow F} → Mem v (best ∷ ws) → Mem v (best ∷ (w ∷ ws))
      skipped h =
          Or.elim (hlevel) (mem-cons.0 h) (λ same. rw same mem-cons_self)
            (λ later. mem-cons_of_mem best (mem-cons_of_mem w later))

  recommended-IsNoWorse :
      (best : CalculatedWindow F) (ws : List (CalculatedWindow F))
      → All (λ w. IsNoWorse number (recommended arithmetic best ws) w) (best ∷ ws)
  unfolding recommended
  recommended-IsNoWorse best [] = (self-IsNoWorse number best, tt)
  recommended-IsNoWorse best (w ∷ ws) =
      let (from_best, from_w) = better_lem best w in
      let (least, rest) = recommended-IsNoWorse (better arithmetic best w) ws in
      (
        trans-IsNoWorse number _ (better arithmetic best w) best least from_best,
        (trans-IsNoWorse number _ (better arithmetic best w) w least from_w, rest),
      )

  -- Where floats are compared as numbers, the recommended window is a candidate. It has the lowest
  -- average of the candidates, and of those with that average it starts the earliest.
  pub recommended_least :
      (best : CalculatedWindow F) (ws : List (CalculatedWindow F))
      → Mem (recommended arithmetic best ws) (best ∷ ws)
        × All (λ w. IsNoWorse number (recommended arithmetic best ws) w) (best ∷ ws)
  recommended_least best ws = (recommended-Mem best ws, recommended-IsNoWorse best ws)
