-- ===== src/Events/Relevance/Grouping.antt =====
-- app/events/relevance.py: the groups of scores that concern one asset at overlapping times. The two
-- `while` loops run on fuel and answer `none` where it runs out. `asset_id.strip().casefold()` is
-- the parameter `normal`.
pub mod Components
pub mod Partition
use Prim.Native.String.{◌++◌ as text_append, compare as text_compare}
use hz.Prelude.{
  ℕ, zero, suc, String, Bool, true, false, ◌&&◌, not, Option, none, some, List, [], ◌∷◌, ◌++◌, map,
  any, length, ltb, max, min, str_eq, if◌then◌else◌,
}
use hz.Prelude.Dicts.{Dict}
use hz.Prelude.Groups.{append_at}
use hz.Prelude.Orders.{is_le, is_lt}
use hz.Prelude.Sorting.{sorted}
use hz.Time.{last_instant}
use hz.Events.Revisions.{ReportedEventRevision, falsy}
use hz.Events.Relevance.{EventRelevanceScore}

-- a group's key, its asset and its members
pub record Group : Type 0 where
  pub group_key : String
  pub reliable_asset_id : Option String
  pub members : List EventRelevanceScore

end_of : Option ℕ → ℕ
end_of none = last_instant
end_of (some end) = end

windows_overlap : Option ℕ → Option ℕ → Option ℕ → Option ℕ → Bool
unfolding end_of
windows_overlap (some s) (some t) left_end right_end =
    ltb (max s t) (min (end_of left_end) (end_of right_end))
windows_overlap _ _ left_end right_end = false

unfoldable pub reported_windows_overlap : ReportedEventRevision → ReportedEventRevision → Bool
unfolding windows_overlap
reported_windows_overlap left right =
    windows_overlap left.effective_start right.effective_start left.effective_end
      right.effective_end

-- some member's window overlaps the candidate's
unfoldable pub touches : List EventRelevanceScore → EventRelevanceScore → Bool
touches component candidate =
    any (λ member. reported_windows_overlap candidate.event member.event) component

-- One pass over `tuple(remaining)`: the component, what remains, and whether anything changed.
unfoldable pub sweep :
    List EventRelevanceScore
    → List EventRelevanceScore
    → List EventRelevanceScore × List EventRelevanceScore × Bool
sweep component [] = (component, [], false)
sweep component (candidate ∷ rest) = elim (touches component candidate) [
  | true ↦
      let (grown, left, changed) = sweep (component ++ candidate ∷ []) rest in (grown, left, true)
  | false ↦ let (grown, left, changed) = sweep component rest in (grown, candidate ∷ left, changed)
]

-- `while changed`
unfoldable pub grow :
    ℕ
    → List EventRelevanceScore
    → List EventRelevanceScore
    → Option (List EventRelevanceScore × List EventRelevanceScore)
grow zero component remaining = none
grow (suc fuel) component remaining =
    let (grown, left, changed) = sweep component remaining in
    elim changed [ true ↦ grow fuel grown left | false ↦ some (grown, left) ]

-- the component that `remaining.pop(0)` starts, and the rest of the loop
with_component :
    Option (List EventRelevanceScore × List EventRelevanceScore)
    → (List EventRelevanceScore → Option (List (List EventRelevanceScore)))
    → Option (List (List EventRelevanceScore))
with_component none rest = none
with_component (some (component, left)) rest = elim (rest left) [
  | none ↦ none
  | some others ↦ some (component ∷ others)
]

-- `while remaining`
unfoldable pub components_among :
    ℕ → List EventRelevanceScore → Option (List (List EventRelevanceScore))
unfolding with_component
components_among fuel [] = some []
components_among zero (first ∷ rest) = none
components_among (suc fuel) (first ∷ rest) =
    with_component (grow (suc (length rest)) (first ∷ []) rest) (components_among fuel)

-- `sorted(by_asset[asset_id], key=lambda score: score.event.event_id)`
unfoldable pub id_before : EventRelevanceScore → EventRelevanceScore → Bool
id_before x y = is_le (text_compare x.event.event_id y.event.event_id)

infixr 45 ◌&◌
abbrev ◌&◌ : String → String → String
a & b = text_append a b

-- `min(item.event.event_id for item in component)`
least_id : String → List EventRelevanceScore → String
least_id best [] = best
least_id best (score ∷ rest) =
    least_id (if is_lt (text_compare score.event.event_id best) then score.event.event_id else best)
      rest

suffix_of : ℕ → List EventRelevanceScore → String
unfolding least_id
suffix_of count [] = ""
suffix_of (suc zero) component = ""
suffix_of count (first ∷ rest) = ":" & least_id first.event.event_id rest

unfoldable pub asset_group : String → ℕ → List EventRelevanceScore → Group
unfolding suffix_of
asset_group asset_id count component = record {
  group_key = "asset:" & asset_id & suffix_of count component;
  reliable_asset_id = some asset_id;
  members = component;
}

unfoldable pub event_group : EventRelevanceScore → Group
event_group score = record {
  group_key = "event:" & score.event.event_id;
  reliable_asset_id = none;
  members = score ∷ [];
}

abbrev pub ByAsset : Type 0
ByAsset = Dict String (List EventRelevanceScore)

-- the groups of one asset
unfoldable pub groups_of_asset : String → List EventRelevanceScore → Option (List Group)
groups_of_asset asset_id scores =
    elim (components_among (length scores) (sorted id_before scores)) [
      | none ↦ none
      | some components ↦ some (map (asset_group asset_id (length components)) components)
    ]

-- the loop over `sorted(by_asset)`
unfoldable pub groups_of_assets : ByAsset → Option (List Group)
groups_of_assets [] = some []
groups_of_assets ((asset_id, scores) ∷ rest) = elim (groups_of_asset asset_id scores) [
  | none ↦ none
  | some groups ↦ elim (groups_of_assets rest) [
    | none ↦ none
    | some others ↦ some (groups ++ others)
  ]
]

unfoldable pub key_before :
    String × List EventRelevanceScore → String × List EventRelevanceScore → Bool
key_before (a, xs) (b, ys) = is_le (text_compare a b)

module _ (normal : String → String) where
  key_of : Bool → Option String → Option String
  key_of true (some asset_id) = if str_eq asset_id "" then none else some (normal asset_id)
  key_of _ _ = none

  -- the key under which a score is grouped, if it is
  unfoldable pub asset_key : EventRelevanceScore → Option String
  unfolding key_of
  asset_key score = key_of score.event.asset_identity_reliable score.event.asset_id

  -- the first loop: the single groups, and the scores by asset
  unfoldable pub split_scores :
      List EventRelevanceScore → List Group → ByAsset → List Group × ByAsset
  split_scores [] standalone by_asset = (standalone, by_asset)
  split_scores (score ∷ rest) standalone by_asset = elim (asset_key score) [
    | none ↦ split_scores rest (standalone ++ event_group score ∷ []) by_asset
    | some key ↦ split_scores rest standalone (append_at str_eq key score by_asset)
  ]

  unfoldable pub group_eligible_scores : List EventRelevanceScore → Option (List Group)
  group_eligible_scores scores =
      let (standalone, by_asset) = split_scores scores [] [] in
      elim (groups_of_assets (sorted key_before by_asset)) [
        | none ↦ none
        | some groups ↦ some (standalone ++ groups)
      ]
