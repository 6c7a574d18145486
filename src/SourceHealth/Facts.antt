-- ===== src/SourceHealth/Facts.antt =====
-- What the delivery state and the summary of facts report.
use mathlib.Core.List.{Mem, mem-cons_self, mem-cons_of_mem}
use hz.Prelude.{
  ◌∙◌, ℕ, ◌≤◌, ◌<◌, ◌≡◌, ◌⊎◌, refl, min, max, Option, none, some, List, [], ◌∷◌, All, true, map,
  arith, inl, inr, ltb, Bool-cases,
}
use hz.SourceHealth.{
  SourceDeliveryState, healthy, delayed, stale, unavailable, delivery_state, DataFamilyStatus, rank,
  to_source, worst, worse_of, merge, extreme, fact_summary,
}

-- from best to worst
abbrev pub severity : SourceDeliveryState → ℕ
severity healthy = 0
severity delayed = 1
severity stale = 2
severity unavailable = 3

-- A source whose last success is longer ago is never in a better delivery state, and one that never
-- succeeded is in the worst.
delivery_state_monotone :
    (cadence lag later : ℕ)
    → lag ≤ later
    → (severity (delivery_state cadence (some lag))
        ≤ severity (delivery_state cadence (some later)))
      × (severity (delivery_state cadence (some later)) < severity (delivery_state cadence none))
unfolding delivery_state
delivery_state_monotone cadence lag later h = (ground arith, ground arith)

worse_of_lem :
    (s t : DataFamilyStatus)
    → (rank s.fact_state ≤ rank (worse_of s t).fact_state)
      × (rank t.fact_state ≤ rank (worse_of s t).fact_state)
      × ((worse_of s t ≡ s) ⊎ (worse_of s t ≡ t))
unfolding worse_of
worse_of_lem s t = elim (Bool-cases (ltb (rank s.fact_state) (rank t.fact_state))) [
  | inl e ↦ rw e (ground arith, omega arith, inr refl)
  | inr e ↦ rw e (omega arith, ground arith, inl refl)
]

-- a status of the list, at least as bad as each
abbrev pub IsWorst : DataFamilyStatus → List DataFamilyStatus → Type 0
IsWorst w ss = Mem w ss × All (λ t. rank t.fact_state ≤ rank w.fact_state) ss

All-le_trans :
    (a b : ℕ) (ss : List DataFamilyStatus)
    → a ≤ b
    → All (λ t. rank t.fact_state ≤ a) ss
    → All (λ t. rank t.fact_state ≤ b) ss
All-le_trans a b [] h all = tt
All-le_trans a b (t ∷ ts) h all = (omega (arith, all.0), All-le_trans a b ts h all.1)

worst_among :
    (s : DataFamilyStatus) (ss : List DataFamilyStatus) → (worst s ss ≡ s) ⊎ Mem (worst s ss) ss
unfolding worst
worst_among s [] = inl refl
worst_among s (t ∷ ts) = elim (worst_among (worse_of s t) ts) [
  | inr m ↦ inr (mem-cons_of_mem t m)
  | inl e ↦ elim (worse_of_lem s t).2 [
    | inl first ↦ inl (e ∙ first)
    | inr second ↦ inr (rw (e ∙ second) mem-cons_self)
  ]
]

worst_ranks :
    (s : DataFamilyStatus) (ss : List DataFamilyStatus)
    → All (λ t. rank t.fact_state ≤ rank (worst s ss).fact_state) (s ∷ ss)
unfolding worst
worst_ranks s [] = (omega arith, tt)
worst_ranks s (t ∷ ts) =
    let (s_le, t_le, chosen) = worse_of_lem s t in
    let (w_le, rest_le) = worst_ranks (worse_of s t) ts in (omega arith, (omega arith, rest_le))

worst-IsWorst : (s : DataFamilyStatus) (ss : List DataFamilyStatus) → IsWorst (worst s ss) (s ∷ ss)
worst-IsWorst s ss = elim (worst_among s ss) [
  | inl e ↦ (rw e mem-cons_self, worst_ranks s ss)
  | inr m ↦ (mem-cons_of_mem s m, worst_ranks s ss)
]

-- `none` where every entry is missing, else an entry that no other one precedes
abbrev pub IsExtreme : (ℕ → ℕ → Type 0) → Option ℕ → List (Option ℕ) → Type 0
IsExtreme precedes none xs = All (λ x. x ≡ none) xs
IsExtreme precedes (some m) xs = Mem (some m) xs × All (λ x. (n : ℕ) → x ≡ some n → precedes m n) xs

module _ (pick : ℕ → ℕ → ℕ) (precedes : ℕ → ℕ → Type 0) (self : (m : ℕ) → precedes m m)
    (trans : (l m n : ℕ) → precedes l m → precedes m n → precedes l n)
    (left : (m n : ℕ) → precedes (pick m n) m) (right : (m n : ℕ) → precedes (pick m n) n)
    (one : (m n : ℕ) → (pick m n ≡ m) ⊎ (pick m n ≡ n)) where
  later-All :
      (l m : ℕ) (xs : List (Option ℕ))
      → precedes l m
      → All (λ x. (n : ℕ) → x ≡ some n → precedes m n) xs
      → All (λ x. (n : ℕ) → x ≡ some n → precedes l n) xs
  later-All l m [] p all = tt
  later-All l m (x ∷ xs) p all = (λ n e. trans l m n p (all.0 n e), later-All l m xs p all.1)

  none-All :
      (m : ℕ) (xs : List (Option ℕ))
      → All (λ x. x ≡ none) xs
      → All (λ x. (n : ℕ) → x ≡ some n → precedes m n) xs
  none-All m [] all = tt
  none-All m (x ∷ xs) all = (λ n e. let missing = all.0 in ground arith, none-All m xs all.1)

  picked_mem :
      (m n : ℕ) (xs : List (Option ℕ)) → Mem (some n) xs → Mem (some (pick m n)) (some m ∷ xs)
  picked_mem m n xs among = elim (one m n) [
    | inl e ↦ rw e mem-cons_self
    | inr e ↦ rw e (mem-cons_of_mem (some m) among)
  ]

  merge-IsExtreme :
      (x y : Option ℕ) (xs : List (Option ℕ))
      → IsExtreme precedes y xs
      → IsExtreme precedes (merge pick x y) (x ∷ xs)
  unfolding merge
  merge-IsExtreme none none xs h = (refl, h)
  merge-IsExtreme none (some m) xs (among, all) =
      (mem-cons_of_mem none among, (λ n e. ground arith, all))
  merge-IsExtreme (some m) none xs h = (
    mem-cons_self,
    (λ n e. let same : m ≡ n = ground arith in rw (← same) (self m), none-All m xs h),
  )
  merge-IsExtreme (some m) (some n) xs (among, all) = (
    picked_mem m n xs among,
    (
      λ k e. let same : m ≡ k = ground arith in rw (← same) (left m n),
      later-All (pick m n) n xs (right m n) all,
    ),
  )

  extreme-IsExtreme : (xs : List (Option ℕ)) → IsExtreme precedes (extreme pick xs) xs
  unfolding extreme
  extreme-IsExtreme [] = tt
  extreme-IsExtreme (x ∷ xs) = merge-IsExtreme x (extreme pick xs) xs (extreme-IsExtreme xs)

earliest : (xs : List (Option ℕ)) → IsExtreme (λ m n. m ≤ n) (extreme min xs) xs
earliest =
    extreme-IsExtreme min (λ m n. m ≤ n) (λ m. omega arith) (λ l m n p q. omega arith)
      (λ m n. omega arith) (λ m n. omega arith) (λ m n. ground arith)

oldest : (xs : List (Option ℕ)) → IsExtreme (λ m n. n ≤ m) (extreme max xs) xs
oldest =
    extreme-IsExtreme max (λ m n. n ≤ m) (λ m. omega arith) (λ l m n p q. omega arith)
      (λ m n. omega arith) (λ m n. omega arith) (λ m n. ground arith)

-- The summary of some statuses is pessimistic: its state is the worst of theirs, its time of
-- observation and its end of validity are the earliest that are known, and its age is the greatest
-- that is known; each is missing exactly where no status has one.
pub fact_summary-IsWorst :
    (s : DataFamilyStatus) (ss : List DataFamilyStatus)
    → ((t : DataFamilyStatus) × IsWorst t (s ∷ ss)
        × ((fact_summary (s ∷ ss) true).fact_state ≡ to_source t.fact_state))
      × IsExtreme
          (λ m n. m ≤ n)
          (fact_summary (s ∷ ss) true).observed_at
          (map (λ t. t.observed_at) (s ∷ ss))
      × IsExtreme
          (λ m n. m ≤ n)
          (fact_summary (s ∷ ss) true).valid_to
          (map (λ t. t.valid_to) (s ∷ ss))
      × IsExtreme
          (λ m n. n ≤ m)
          (fact_summary (s ∷ ss) true).fact_age
          (map (λ t. t.observation_age_seconds) (s ∷ ss))
unfolding fact_summary
fact_summary-IsWorst s ss = (
  (worst s ss, worst-IsWorst s ss, refl),
  earliest (map (λ t. t.observed_at) (s ∷ ss)),
  earliest (map (λ t. t.valid_to) (s ∷ ss)),
  oldest (map (λ t. t.observation_age_seconds) (s ∷ ss)),
)
