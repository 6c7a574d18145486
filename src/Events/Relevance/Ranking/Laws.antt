-- ===== src/Events/Relevance/Ranking/Laws.antt =====
-- A ranking gives the most relevant groups in order, and each event that counts is in one group.
use mathlib.Core.List.{Mem, Perm}
use hz.Prelude.{
  ℕ, zero, suc, ◌≤◌, ◌≡◌, refl, ap, ◌⊎◌, inl, inr, String, Bool, true, false, some, List, [], ◌∷◌,
  ◌++◌, length, take, map, length-take_bounds, filter, All, ok, arith, le→leb, raise_if_inv,
  ok_unique, str_eq, eq_iff,
}
use hz.Prelude.Int.{ℤ, pos}
use hz.Prelude.Orders.{
  IsOrder, compare-IsOrder, compare_ℤ-IsOrder, by-IsOrder, down-IsOrder, first_of-IsOrder, is_le,
  le_total, le_trans, least-All, least-Mem,
}
use hz.Prelude.TextOrder.{text_compare-IsOrder}
use hz.Prelude.Sorting.{sorted, sorted-perm, sorted-IsSorted, length-sorted, IsSorted}
use hz.Time.{aware}
use hz.Events.Models.{Float}
use hz.Events.Revisions.{ReportedEventRevision}
use hz.Events.Relevance.{
  EventRelevanceScore, is_percent, capacity_percent, authority_priority, conflicting_revision,
}
use hz.Events.Relevance.Bounds.{score_event-IsScored}
use hz.Events.Relevance.Grouping.{Group, group_eligible_scores}
use hz.Events.Relevance.Grouping.Partition.{members_of, HasMembers, group_eligible_scores_total}
use hz.Events.Relevance.Ranking.{
  integer, RankedEventGroup, RankedEventSelection, build_selection, check_limit, latest_revisions,
  is_missing, mw_or_zero, key_compare, ranked_groups, ranked_before, scores_at, grouped,
  rank_relevant_events, latest_loop, RevisionKey, event_key, revision_rank, conflicts, revision_key,
  revision_key_eq,
}
use hz.Prelude.Dicts.{Dict, values, lookup, insert, Distinct}
use hz.Prelude.Latest.{latest, keep, IsLatest, latest-IsLatest, latest-Distinct}

module _ (timestamp : ℕ → ℤ) where
  key_compare-IsOrder : IsOrder (key_compare timestamp)
  unfolding key_compare
  key_compare-IsOrder =
      first_of-IsOrder (by-IsOrder (λ s. s.total_score) (down-IsOrder compare-IsOrder)) (
        first_of-IsOrder
          (by-IsOrder (λ s. authority_priority s.event.authority) (down-IsOrder compare-IsOrder))
          (first_of-IsOrder (by-IsOrder (λ s. is_missing s.event.unavailable_mw) compare-IsOrder) (
            first_of-IsOrder
              (by-IsOrder (λ s. mw_or_zero s.event.unavailable_mw) (down-IsOrder compare_ℤ-IsOrder))
              (first_of-IsOrder
                (by-IsOrder (λ s. timestamp s.event.published_at) (down-IsOrder compare_ℤ-IsOrder))
                (by-IsOrder (λ s. s.event.event_id) text_compare-IsOrder)))))

  -- The ranked group has the key of the group, one of its members, and none that is more relevant.
  IsRankOf : Group → RankedEventGroup → Type 0
  IsRankOf group ranked =
      (ranked.group_key ≡ group.group_key)
      × Mem ranked.representative group.members
      × All (λ m. is_le (key_compare timestamp ranked.representative m) ≡ true) group.members

  -- the groups and the ranked groups, one by one
  pub AreRanked : List Group → List RankedEventGroup → Type 0
  AreRanked [] [] = Unit
  AreRanked (g ∷ groups) (r ∷ ranked) = IsRankOf g r × AreRanked groups ranked
  AreRanked _ _ = ⊥

  rank_one :
      (group : Group) (rest : List Group) (members : List EventRelevanceScore)
      → group.members ≡ members
      → 1 ≤ length members
      → AreRanked rest (ranked_groups timestamp rest)
      → AreRanked (group ∷ rest) (ranked_groups timestamp (group ∷ rest))
  unfolding AreRanked IsRankOf ranked_groups
  rank_one group rest [] same h later = absurd (omega arith)
  rank_one group rest (first ∷ others) same h later =
      let low = least-All key_compare-IsOrder first others in
      rw (same, ranked_groups) ((refl, least-Mem key_compare-IsOrder first others, low), later)

  ranked_groups-AreRanked :
      (groups : List Group)
      → All HasMembers groups
      → AreRanked groups (ranked_groups timestamp groups)
  unfolding AreRanked ranked_groups
  ranked_groups-AreRanked [] h = tt
  ranked_groups-AreRanked (g ∷ groups) (here, later) =
      rank_one g groups g.members refl here (ranked_groups-AreRanked groups later)

  ranked_before_total :
      (x y : RankedEventGroup)
      → ranked_before timestamp x y ≡ false
      → ranked_before timestamp y x ≡ true
  unfolding ranked_before
  ranked_before_total x y = le_total key_compare-IsOrder x.representative y.representative

  ranked_before_trans :
      (x y z : RankedEventGroup)
      → ranked_before timestamp x y ≡ true
      → ranked_before timestamp y z ≡ true
      → ranked_before timestamp x z ≡ true
  unfolding ranked_before
  ranked_before_trans x y z =
      le_trans key_compare-IsOrder x.representative y.representative z.representative

scores_at_total :
    (percent_of : ℤ → ℤ → Float) (t : ℕ) (events : List ReportedEventRevision)
    → All (λ e. is_percent (capacity_percent percent_of e) ≡ true) events
    → (scores : List EventRelevanceScore) × (scores_at percent_of t events ≡ ok scores)
      × (map (λ s. s.event) scores ≡ events)
unfolding scores_at
scores_at_total percent_of t [] h = ([], refl, refl)
scores_at_total percent_of t (e ∷ events) (here, later) =
    let (s, scored, good) = score_event-IsScored percent_of e t here in
    let (scores, others, same) = scores_at_total percent_of t events later in
    (s ∷ scores, rw (scored, others) refl, rw (good.same_event, same) refl)

-- what `take` leaves out
drop {ℓ} : {A : Type ℓ} → ℕ → List A → List A
drop zero xs = xs
drop (suc n) [] = []
drop (suc n) (x ∷ xs) = drop n xs

take-drop {ℓ} : {A : Type ℓ} (n : ℕ) (xs : List A) → take n xs ++ drop n xs ≡ xs
unfolding drop
take-drop zero xs = refl
take-drop (suc n) [] = refl
take-drop (suc n) (x ∷ xs) = ap (λ l. x ∷ l) (take-drop n xs)

length-take_cases {ℓ} :
    {A : Type ℓ} (n : ℕ) (xs : List A) → (length (take n xs) ≡ n) ⊎ (drop n xs ≡ [])
unfolding drop
length-take_cases zero xs = inl refl
length-take_cases (suc n) [] = inr refl
length-take_cases (suc n) (x ∷ xs) = elim (length-take_cases n xs) [
  | inl e ↦ inl (ap suc e)
  | inr e ↦ inr e
]

selection_built :
    (s : RankedEventSelection)
    → 1 ≤ s.requested_limit
    → s.requested_limit ≤ 3
    → length s.selected ≤ s.requested_limit
    → build_selection s ≡ ok s
unfolding build_selection
selection_built s low high short = ground arith

module _ (same : ReportedEventRevision → ReportedEventRevision → Bool) (percent_of : ℤ → ℤ → Float)
    (normal : String → String) (timestamp : ℕ → ℤ) where
  -- `groups` are the groups of the events that count, and the selection is the best of them.
  pub record IsRanking (t n : ℕ) (latest : List ReportedEventRevision) (s : RankedEventSelection)
      : Type 0 where
    pub scores : List EventRelevanceScore
    pub scored : scores_at percent_of t latest ≡ ok scores
    pub same_events : map (λ x. x.event) scores ≡ latest
    pub groups : List Group
    pub grouped_as : group_eligible_scores normal (filter (λ x. x.eligible) scores) ≡ some groups
    pub ranked : List RankedEventGroup
    pub rest : List RankedEventGroup
    pub partition : Perm (members_of groups) (filter (λ x. x.eligible) scores)
    pub represented : AreRanked timestamp groups ranked
    pub chosen : Perm (s.selected ++ rest) ranked
    pub in_order : IsSorted (ranked_before timestamp) (s.selected ++ rest)
    pub at_most : length s.selected ≤ n
    pub all_or_full : (length s.selected ≡ n) ⊎ (rest ≡ [])
    pub counted : s.eligible_group_count ≡ length ranked

  -- For a limit from one to three, where no two revisions conflict and each share of a capacity is a
  -- finite number from zero on or unknown, a ranking is made. Each event that counts is in exactly one
  -- group, which is represented by one of its members, none of them more relevant. The selected groups
  -- and the others together are the groups in order of relevance; as many are selected as the limit
  -- allows, or all.
  pub rank_relevant_events-IsRanking :
      (events latest : List ReportedEventRevision) (t n : ℕ)
      → 1 ≤ n
      → n ≤ 3
      → latest_revisions same events ≡ ok latest
      → All (λ e. is_percent (capacity_percent percent_of e) ≡ true) latest
      → (s : RankedEventSelection) × (rank_relevant_events same percent_of normal timestamp events
            (aware t)
            (integer (pos n))
          ≡ ok s)
        × IsRanking t n latest s
  unfolding rank_relevant_events check_limit grouped
  rank_relevant_events-IsRanking events latest t n low high found percents =
      let (scores, scored, same_events) = scores_at_total percent_of t latest percents in
      let counting = filter (λ x. x.eligible) scores in
      let (groups, grouped_as, partition, filled) = group_eligible_scores_total normal counting in
      let ranked = ranked_groups timestamp groups in
      let ordered = sorted (ranked_before timestamp) ranked in
      let s : RankedEventSelection = record {
        as_of = t;
        requested_limit = n;
        eligible_group_count = length ordered;
        selected = take n ordered;
      } in
      (
        s,
        rw (le→leb 1 n low, le→leb n 3 high, found, scored, grouped_as)
            (selection_built s low high (length-take_bounds ordered n).1),
        record {
          scores = scores;
          scored = scored;
          same_events = same_events;
          groups = groups;
          grouped_as = grouped_as;
          ranked = ranked;
          rest = drop n ordered;
          partition = partition;
          represented = ranked_groups-AreRanked timestamp groups filled;
          chosen = rw (take-drop n ordered) (sorted-perm (ranked_before timestamp) ranked);
          in_order = rw (take-drop n ordered) (
              sorted-IsSorted (ranked_before timestamp) (ranked_before_total timestamp)
                (ranked_before_trans timestamp) ranked);
          at_most = (length-take_bounds ordered n).1;
          all_or_full = length-take_cases n ordered;
          counted = length-sorted (ranked_before timestamp) ranked;
        },
      )

-- What the loop leaves is what the loop without the check for conflicts leaves.
latest_loop-latest :
    (same : ReportedEventRevision → ReportedEventRevision → Bool)
    (events : List ReportedEventRevision) (seen : Dict RevisionKey ReportedEventRevision)
    (by_event : Dict String ReportedEventRevision) (found : List ReportedEventRevision)
    → latest_loop same events seen by_event ≡ ok found
    → found ≡ values (latest str_eq event_key revision_rank events by_event)
unfolding latest_loop latest
latest_loop-latest same [] seen by_event found h = ok_unique (ok _) _ _ h refl
latest_loop-latest same (e ∷ events) seen by_event found h =
    let known = lookup revision_key_eq (revision_key e) seen in
    let seen' = insert revision_key_eq (revision_key e) e seen in
    let by_event' =
      keep str_eq event_key revision_rank (lookup str_eq e.event_id by_event) e by_event in
    let (checked, goes_on) =
      raise_if_inv (conflicts same known e) conflicting_revision
        (latest_loop same events seen' by_event') found h in
    latest_loop-latest same events seen' by_event' found goes_on

-- Without a conflict one revision is left for each event id: under every id that occurs, one of that
-- id's revisions, of which none has a higher number; under any other id none.
pub latest_revisions-IsLatest :
    (same : ReportedEventRevision → ReportedEventRevision → Bool)
    (events found : List ReportedEventRevision) (k : String)
    → latest_revisions same events ≡ ok found
    → (d : Dict String ReportedEventRevision) × (found ≡ values d)
      × Distinct str_eq d
      × IsLatest str_eq event_key revision_rank events k (lookup str_eq k d)
unfolding latest_revisions
latest_revisions-IsLatest same events found k h = (
  latest str_eq event_key revision_rank events [],
  latest_loop-latest same events [] [] found h,
  latest-Distinct str_eq event_key revision_rank eq_iff events [] tt,
  latest-IsLatest str_eq event_key revision_rank eq_iff k events,
)
