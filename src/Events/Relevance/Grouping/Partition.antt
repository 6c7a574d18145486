-- ===== src/Events/Relevance/Grouping/Partition.antt =====
-- Every score is in exactly one group.
use mathlib.Core.List.{Perm, perm_middle, append_assoc, append-nil}
use mathlib.Core.List.Perm
use hz.Prelude.{
  ℕ, ◌≤◌, ◌≡◌, refl, sym, ap, ◌∙◌, String, some, List, [], ◌∷◌, ◌++◌, map, length, All, All-append,
  str_eq, arith, Option-cases, inl, inr,
}
use hz.Prelude.Groups.{append_at, items_of, items_of-append_at, items_of-sorted}
use hz.Prelude.Sorting.{sorted, sorted-perm, length-sorted}
use hz.Events.Relevance.{EventRelevanceScore}
use hz.Events.Relevance.Grouping.{
  Group, id_before, asset_group, event_group, ByAsset, groups_of_asset, groups_of_assets,
  key_before, asset_key, split_scores, group_eligible_scores,
}
use hz.Events.Relevance.Grouping.Components.{all_of, components_among_total}

-- the members of all groups
pub members_of : List Group → List EventRelevanceScore
members_of [] = []
members_of (g ∷ rest) = g.members ++ members_of rest

members_of-append : (xs ys : List Group) → members_of (xs ++ ys) ≡ members_of xs ++ members_of ys
unfolding members_of
members_of-append [] ys = refl
members_of-append (x ∷ xs) ys =
    ap (λ l. x.members ++ l) (members_of-append xs ys)
    ∙ sym (append_assoc x.members (members_of xs) (members_of ys))

members_of-map :
    (asset_id : String) (count : ℕ) (components : List (List EventRelevanceScore))
    → members_of (map (asset_group asset_id count) components) ≡ all_of components
unfolding members_of all_of asset_group
members_of-map asset_id count [] = refl
members_of-map asset_id count (c ∷ rest) = ap (λ l. c ++ l) (members_of-map asset_id count rest)

abbrev pub HasMembers : Group → Type 0
HasMembers g = 1 ≤ length g.members

HasMembers-map :
    (asset_id : String) (count : ℕ) (components : List (List EventRelevanceScore))
    → All (λ c. 1 ≤ length c) components
    → All HasMembers (map (asset_group asset_id count) components)
unfolding asset_group
HasMembers-map asset_id count [] h = tt
HasMembers-map asset_id count (c ∷ rest) (here, later) =
    (here, HasMembers-map asset_id count rest later)

groups_of_asset_total :
    (asset_id : String) (scores : List EventRelevanceScore)
    → (groups : List Group) × (groups_of_asset asset_id scores ≡ some groups)
      × Perm (members_of groups) scores
      × All HasMembers groups
unfolding groups_of_asset
groups_of_asset_total asset_id scores =
    let sorted_scores = sorted id_before scores in
    let (components, found, kept, apart, filled) =
      components_among_total (length scores) sorted_scores
        (omega (arith, length-sorted id_before scores)) in
    (
      map (asset_group asset_id (length components)) components,
      rw (found, groups_of_asset) refl,
      rw (members_of-map asset_id (length components) components)
          (Perm.trans kept (sorted-perm id_before scores)),
      HasMembers-map asset_id (length components) components filled,
    )

groups_of_assets_total :
    (by_asset : ByAsset)
    → (groups : List Group) × (groups_of_assets by_asset ≡ some groups)
      × Perm (members_of groups) (items_of by_asset)
      × All HasMembers groups
unfolding groups_of_assets members_of
groups_of_assets_total [] = ([], refl, Perm.refl [], tt)
groups_of_assets_total ((asset_id, scores) ∷ rest) =
    let (groups, first, kept, filled) = groups_of_asset_total asset_id scores in
    let (others, later, kept_too, filled_too) = groups_of_assets_total rest in
    (
      groups ++ others,
      rw (first, later, groups_of_assets) refl,
      rw (members_of-append groups others) (Perm.append kept kept_too),
      All-append HasMembers groups others filled filled_too,
    )

module _ (normal : String → String) where
  -- the scores that the first loop has placed
  placed : List Group × ByAsset → List EventRelevanceScore
  placed r = members_of r.0 ++ items_of r.1

  split_scores-perm :
      (scores : List EventRelevanceScore) (standalone : List Group) (by_asset : ByAsset)
      → Perm
          (placed (split_scores normal scores standalone by_asset))
          (members_of standalone ++ (items_of by_asset ++ scores))
  unfolding split_scores placed members_of event_group
  split_scores-perm [] standalone by_asset = rw (append-nil (items_of by_asset)) (Perm.refl _)
  split_scores-perm (x ∷ rest) standalone by_asset = elim (Option-cases (asset_key normal x)) [
    | inl e ↦
        rw (e, split_scores)
          (Perm.trans (split_scores-perm rest (standalone ++ event_group x ∷ []) by_asset) (
            rw
              (
                members_of-append standalone (event_group x ∷ []),
                append_assoc (members_of standalone) (x ∷ []) (items_of by_asset ++ rest),
              )
              (Perm.append_left (members_of standalone)
                (Perm.symm (perm_middle (items_of by_asset) rest)))))
    | inr (key, e) ↦
        rw (e, split_scores)
          (Perm.trans (split_scores-perm rest standalone (append_at str_eq key x by_asset)) (
            Perm.append_left (members_of standalone) (
              rw (← append_assoc (items_of by_asset) (x ∷ []) rest)
                (Perm.append_right rest (items_of-append_at str_eq key x by_asset)))))
  ]

  split_scores-HasMembers :
      (scores : List EventRelevanceScore) (standalone : List Group) (by_asset : ByAsset)
      → All HasMembers standalone
      → All HasMembers (split_scores normal scores standalone by_asset).0
  unfolding split_scores event_group
  split_scores-HasMembers [] standalone by_asset h = h
  split_scores-HasMembers (x ∷ rest) standalone by_asset h =
      elim (Option-cases (asset_key normal x)) [
        | inl e ↦
            rw (e, split_scores)
              (split_scores-HasMembers rest (standalone ++ event_group x ∷ []) by_asset
                (All-append HasMembers standalone (event_group x ∷ []) h (omega arith, tt)))
        | inr (key, e) ↦
            rw (e, split_scores)
              (split_scores-HasMembers rest standalone (append_at str_eq key x by_asset) h)
      ]

  -- The grouping ends within its fuel, and its groups hold each score once.
  pub group_eligible_scores_total :
      (scores : List EventRelevanceScore)
      → (groups : List Group) × (group_eligible_scores normal scores ≡ some groups)
        × Perm (members_of groups) scores
        × All HasMembers groups
  unfolding group_eligible_scores placed members_of
  group_eligible_scores_total scores =
      let standalone = (split_scores normal scores [] []).0 in
      let by_asset = (split_scores normal scores [] []).1 in
      let (groups, found, kept, filled) = groups_of_assets_total (sorted key_before by_asset) in
      (
        standalone ++ groups,
        rw (found, group_eligible_scores) refl,
        rw (members_of-append standalone groups) (
            Perm.trans
              (Perm.append_left (members_of standalone)
                (Perm.trans kept (items_of-sorted key_before by_asset)))
              (split_scores-perm scores [] [])),
        All-append HasMembers standalone groups (split_scores-HasMembers scores [] [] tt) filled,
      )
