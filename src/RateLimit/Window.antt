-- ===== src/RateLimit/Window.antt =====
-- Dropping what has left the window, against plain arithmetic on the times.
use hz.Prelude.{
  ℕ, ◌+◌, ◌≤◌, ◌<◌, ◌≡◌, refl, sym, not, List, [], ◌∷◌, ◌++◌, arith, leb, if◌then◌else◌, filter,
  All, Bool-cases, inl, inr,
}
use hz.Prelude.Int.{pos, sub_ℕ, leb_ℤ}
use hz.RateLimit.{discard_before}

-- the times from the first on that is younger than `span` at time `u`
unfoldable pub dropped : ℕ → ℕ → List ℕ → List ℕ
dropped span u [] = []
dropped span u (v ∷ vs) = let rest = dropped span u vs in if leb (v + span) u then rest else v ∷ vs

left_window : (v u span : ℕ) → leb_ℤ (pos v) (sub_ℕ u span) ≡ leb (v + span) u
left_window v u span = ground arith

pub discard_before-dropped :
    (span u : ℕ) (vs : List ℕ) → discard_before (sub_ℕ u span) vs ≡ dropped span u vs
unfolding discard_before dropped
discard_before-dropped span u [] = refl
discard_before-dropped span u (v ∷ vs) = rw (left_window v u span, discard_before-dropped span u vs)

module _ (span : ℕ) where
  pub dropped-dropped :
      (u w : ℕ) (vs : List ℕ) → u ≤ w → dropped span w (dropped span u vs) ≡ dropped span w vs
  unfolding dropped
  dropped-dropped u w [] h = refl
  dropped-dropped u w (v ∷ vs) h = ground (arith, dropped-dropped u w vs)

  -- what one more time at the end does
  push : ℕ → ℕ → List ℕ → List ℕ
  push u x [] = dropped span u (x ∷ [])
  push u x (v ∷ vs) = (v ∷ vs) ++ x ∷ []

  dropped-append :
      (u x : ℕ) (vs : List ℕ) → dropped span u (vs ++ x ∷ []) ≡ push u x (dropped span u vs)
  unfolding dropped push
  dropped-append u x [] = ground arith
  dropped-append u x (v ∷ vs) = ground (arith, dropped-append u x vs)

  pub dropped-append_congr :
      (u x : ℕ) (vs ws : List ℕ)
      → dropped span u vs ≡ dropped span u ws
      → dropped span u (vs ++ x ∷ []) ≡ dropped span u (ws ++ x ∷ [])
  dropped-append_congr u x vs ws h = rw (dropped-append u x vs, h) (sym (dropped-append u x ws))

  -- the times that are younger than `span`, wherever they stand
  abbrev pub recent : ℕ → List ℕ → List ℕ
  recent u = filter (λ v. not (leb (v + span) u))

abbrev pub Ascending : List ℕ → Type 0
Ascending [] = Unit
Ascending (v ∷ vs) = All (λ w. v ≤ w) vs × Ascending vs

recent-All :
    (span u v : ℕ) (vs : List ℕ) → u < v + span → All (λ w. v ≤ w) vs → recent span u vs ≡ vs
recent-All span u v [] l h = refl
recent-All span u v (w ∷ vs) l h = ground (arith, recent-All span u v vs, h.0, h.1)

-- of ascending times nothing young stands before something old
pub dropped-recent :
    (span u : ℕ) (vs : List ℕ) → Ascending vs → dropped span u vs ≡ recent span u vs
unfolding dropped
dropped-recent span u [] h = refl
dropped-recent span u (v ∷ vs) h = elim (Bool-cases (leb (v + span) u)) [
  | inl e ↦ rw e (dropped-recent span u vs h.1)
  | inr e ↦ rw (e, recent-All span u v vs (ground arith) h.0)
]
