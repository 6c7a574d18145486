-- ===== src/Events/Relevance/Grouping/Components.antt =====
-- The loops that make the components of one asset's scores end, lose no score, and leave no overlap
-- between two components.
use mathlib.Core.List.{Perm, perm_middle, append_assoc}
use mathlib.Core.List.Perm
use hz.Prelude.{
  ℕ, zero, suc, ◌≤◌, ◌<◌, ◌≡◌, refl, ap, Bool, true, false, Option, some, List, [], ◌∷◌, ◌++◌,
  length, length-append, All, arith, Bool-cases, inl, inr,
}
use hz.Prelude.Members.{All-perm}
use hz.Events.Relevance.{EventRelevanceScore}
use hz.Events.Relevance.Grouping.{touches, sweep, grow, components_among, with_component}

-- No member's window overlaps that of any of the scores.
pub IsApart : List EventRelevanceScore → List EventRelevanceScore → Type 0
IsApart component scores = All (λ x. touches component x ≡ false) scores

-- What one pass does: it moves scores to the component, and if it moves none, none overlaps.
record IsSwept (component scores : List EventRelevanceScore)
    (result : List EventRelevanceScore × List EventRelevanceScore × Bool) : Type 0 where
  kept : Perm (result.0 ++ result.1) (component ++ scores)
  shorter : result.2 ≡ true → length result.1 < length scores
  longer : length result.1 ≤ length scores
  wider : length component ≤ length result.0
  apart : result.2 ≡ false → (result.0 ≡ component) × IsApart component scores × (result.1 ≡ scores)

sweep-IsSwept :
    (component scores : List EventRelevanceScore)
    → IsSwept component scores (sweep component scores)
unfolding sweep IsApart
sweep-IsSwept component [] = record {
  kept = Perm.refl _;
  shorter = λ e. cc;
  longer = omega arith;
  wider = omega arith;
  apart = λ e. (refl, tt, refl);
}
sweep-IsSwept component (x ∷ rest) = elim (Bool-cases (touches component x)) [
  | inl e ↦
      rw (e, sweep)
        (let later = sweep-IsSwept (component ++ x ∷ []) rest in
          record {
            kept = rw (← append_assoc component (x ∷ []) rest) later.kept;
            shorter = λ h. omega (arith, later.longer);
            longer = omega (arith, later.longer);
            wider = omega (arith, later.wider, length-append component (x ∷ []));
            apart = λ h. cc;
          })
  | inr e ↦
      rw (e, sweep)
        (let later = sweep-IsSwept component rest in
          record {
            kept =
                Perm.trans (perm_middle _ _)
                  (Perm.trans (Perm.cons x later.kept) (Perm.symm (perm_middle _ _)));
            shorter = λ h. omega (arith, later.shorter h);
            longer = omega (arith, later.longer);
            wider = later.wider;
            apart = λ h.
                let (same, apart, left) = later.apart h in (same, (e, apart), ap (λ l. x ∷ l) left);
          })
]

-- A component that is complete: nothing is lost, and nothing that is left overlaps it.
record IsGrown (component scores : List EventRelevanceScore)
    (result : List EventRelevanceScore × List EventRelevanceScore) : Type 0 where
  kept : Perm (result.0 ++ result.1) (component ++ scores)
  fewer : length result.1 ≤ length scores
  wider : length component ≤ length result.0
  apart : IsApart result.0 result.1

grow-IsGrown :
    (fuel : ℕ) (component scores : List EventRelevanceScore)
    → length scores < fuel
    → (r : List EventRelevanceScore × List EventRelevanceScore) × (grow fuel component scores
        ≡ some r)
      × IsGrown component scores r
unfolding grow
grow-IsGrown zero component scores h = absurd (omega arith)
grow-IsGrown (suc fuel) component scores h =
    let swept = sweep-IsSwept component scores in
    elim (Bool-cases (sweep component scores).2) [
      | inl e ↦
          let (r, same, grown) =
            grow-IsGrown fuel (sweep component scores).0 (sweep component scores).1
              (omega (arith, swept.shorter e)) in
          (
            r,
            rw (e, grow) same,
            record {
              kept = Perm.trans grown.kept swept.kept;
              fewer = omega (arith, grown.fewer, swept.longer);
              wider = omega (arith, grown.wider, swept.wider);
              apart = grown.apart;
            },
          )
      | inr e ↦
          let (same, apart, left) = swept.apart e in
          (
            ((sweep component scores).0, (sweep component scores).1),
            rw (e, grow) refl,
            record {
              kept = swept.kept;
              fewer = swept.longer;
              wider = swept.wider;
              apart = rw (same, left) apart;
            },
          )
    ]

-- all the components' members
unfoldable pub all_of : List (List EventRelevanceScore) → List EventRelevanceScore
all_of [] = []
all_of (component ∷ others) = component ++ all_of others

-- No score of a later component overlaps a member of an earlier one.
pub AreApart : List (List EventRelevanceScore) → Type 0
AreApart [] = Unit
AreApart (component ∷ others) = IsApart component (all_of others) × AreApart others

with_component_lem :
    (o : Option (List EventRelevanceScore × List EventRelevanceScore))
    (rest : List EventRelevanceScore → Option (List (List EventRelevanceScore)))
    (r : List EventRelevanceScore × List EventRelevanceScore)
    (others : List (List EventRelevanceScore))
    → o ≡ some r
    → rest r.1 ≡ some others
    → with_component o rest ≡ some (r.0 ∷ others)
unfolding with_component
with_component_lem o rest (component, left) others h k = rw (h, k, with_component) refl

-- With as much fuel as there are scores, the loops that make the components of one asset end. The
-- components are not empty and hold each score once, and no score overlaps a member of a component
-- before its own.
pub components_among_total :
    (fuel : ℕ) (scores : List EventRelevanceScore)
    → length scores ≤ fuel
    → (components : List (List EventRelevanceScore)) × (components_among fuel scores
        ≡ some components)
      × Perm (all_of components) scores
      × AreApart components
      × All (λ c. 1 ≤ length c) components
unfolding components_among AreApart all_of IsApart
components_among_total fuel [] h = ([], refl, Perm.refl [], tt, tt)
components_among_total zero (x ∷ rest) h = absurd (omega arith)
components_among_total (suc fuel) (x ∷ rest) h =
    let (r, same, grown) = grow-IsGrown (suc (length rest)) (x ∷ []) rest (omega arith) in
    let (others, found, kept, apart, filled) =
      components_among_total fuel r.1 (omega (arith, grown.fewer)) in
    (
      r.0 ∷ others,
      with_component_lem _ (components_among fuel) r others same found,
      Perm.trans (Perm.append_left r.0 kept) grown.kept,
      (All-perm (touches r.0) false (Perm.symm kept) grown.apart, apart),
      (grown.wider, filled),
    )
