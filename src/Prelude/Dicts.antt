-- ===== src/Prelude/Dicts.antt =====
-- Python's `dict`: an association list in insertion order, over keys with a test `eq` for `==`.
use mathlib.Core.Bool.{false≢true}
use mathlib.Core.Option
use hz.Prelude.{
  ◌≡◌, refl, ◌↔◌, Bool, true, false, Option, none, some, List, [], ◌∷◌, arith, if◌then◌else◌, map,
  Bool-cases, inl, inr, sym, Option-cases, ◌∙◌, ◌⊎◌, All,
}

abbrev pub Dict : Type 0 → Type 0 → Type 0
Dict K V = List (K × V)

unfoldable pub values : {K V : Type 0} → Dict K V → List V
values d = map (λ e. e.1) d

-- for each item: change its value by `f`, or `del d[key]` where `f` gives nothing
keep_some : {K V : Type 0} → K → Option V → Dict K V → Dict K V
keep_some k none d = d
keep_some k (some v) d = (k, v) ∷ d

unfoldable pub filter_map_values : {K V : Type 0} → (V → Option V) → Dict K V → Dict K V
unfolding keep_some
filter_map_values f [] = []
filter_map_values f ((k, v) ∷ d) = keep_some k (f v) (filter_map_values f d)

module _ {K V : Type 0} (eq : K → K → Bool) where
  -- `d.get(k)`
  unfoldable pub lookup : K → Dict K V → Option V
  lookup k [] = none
  lookup k ((j, v) ∷ d) = if eq j k then some v else lookup k d

  -- `d[k] = v`: an old key keeps its place
  unfoldable pub insert : K → V → Dict K V → Dict K V
  insert k v [] = (k, v) ∷ []
  insert k v ((j, w) ∷ d) = if eq j k then (j, v) ∷ d else (j, w) ∷ insert k v d

  -- no key stands twice
  abbrev pub Distinct : Dict K V → Type 0
  Distinct [] = Unit
  Distinct ((k, v) ∷ d) = (lookup k d ≡ none) × Distinct d

-- `eq` is the equality of keys.
module _ {K : Type 0} (eq : K → K → Bool) (eq_iff : (a b : K) → (eq a b ≡ true) ↔ (a ≡ b)) where
  eq_refl : (a : K) → eq a a ≡ true
  eq_refl a = (eq_iff a a).1 refl

  eq_of_true : (a b : K) → eq a b ≡ true → a ≡ b
  eq_of_true a b = (eq_iff a b).0

  eq-sym_false : (a b : K) → eq a b ≡ false → eq b a ≡ false
  eq-sym_false a b h = elim (Bool-cases (eq b a)) [
    | inl e ↦ absurd (false≢true (sym h ∙ (eq_iff a b).1 (sym (eq_of_true b a e))))
    | inr e ↦ e
  ]

  module _ {V : Type 0} where
    pub lookup-insert :
        (k j : K) (v : V) (d : Dict K V)
        → lookup eq j (insert eq k v d) ≡ (if eq k j then some v else lookup eq j d)
    unfolding lookup insert
    lookup-insert k j v [] = refl
    lookup-insert k j v ((i, w) ∷ d) = elim (Bool-cases (eq i k)) [
      | inl e ↦ rw (e, eq_of_true i k e) (ground arith)
      | inr e ↦ rw (e, lookup-insert k j v d) (differ e (Bool-cases (eq i j)) (Bool-cases (eq k j)))
    ]
      where
        differ :
            eq i k ≡ false
            → ((eq i j ≡ true) ⊎ (eq i j ≡ false))
            → ((eq k j ≡ true) ⊎ (eq k j ≡ false))
            → (if eq i j then some w else if eq k j then some v else lookup eq j d)
              ≡ (if eq k j then some v else if eq i j then some w else lookup eq j d)
        differ e (inl a) (inl b) =
            absurd (false≢true (sym e ∙ (eq_iff i k).1 (eq_of_true i j a ∙ sym (eq_of_true k j b))))
        differ e (inl a) (inr b) = rw (a, b)
        differ e (inr a) (inl b) = rw (a, b)
        differ e (inr a) (inr b) = rw (a, b)

    pub insert-Distinct :
        (k : K) (v : V) (d : Dict K V) → Distinct eq d → Distinct eq (insert eq k v d)
    unfolding lookup insert
    insert-Distinct k v [] h = (refl, tt)
    insert-Distinct k v ((i, w) ∷ d) h = elim (Bool-cases (eq i k)) [
      | inl e ↦ rw e h
      | inr e ↦ rw e (rw (lookup-insert k i v d, eq-sym_false i k e) h.0, insert-Distinct k v d h.1)
    ]

  module _ {V : Type 0} (f : V → Option V) where
    lookup-filter_map_none :
        (k : K) (d : Dict K V) → lookup eq k d ≡ none → lookup eq k (filter_map_values f d) ≡ none
    unfolding lookup filter_map_values keep_some
    lookup-filter_map_none k [] h = refl
    lookup-filter_map_none k ((j, v) ∷ d) h = elim (Bool-cases (eq j k)) [
      | inl e ↦ absurd (ground arith)
      | inr e ↦ ground (arith, lookup-filter_map_none k d)
    ]

    pub lookup-filter_map :
        (k : K) (d : Dict K V)
        → Distinct eq d
        → lookup eq k (filter_map_values f d) ≡ Option.bind (lookup eq k d) f
    unfolding lookup filter_map_values keep_some Option.bind
    lookup-filter_map k [] h = refl
    lookup-filter_map k ((j, v) ∷ d) h = elim (Bool-cases (eq j k)) [
      | inl e ↦
          ground
            (arith, lookup-filter_map_none j d h.0, eq_of_true j k e, lookup-filter_map k d h.1)
      | inr e ↦ ground (arith, lookup-filter_map k d h.1)
    ]

    pub filter_map-Distinct : (d : Dict K V) → Distinct eq d → Distinct eq (filter_map_values f d)
    unfolding lookup filter_map_values keep_some
    filter_map-Distinct [] h = tt
    filter_map-Distinct ((j, v) ∷ d) h = elim (Option-cases (f v)) [
      | inl e ↦ rw e (filter_map-Distinct d h.1)
      | inr (w, e) ↦ rw e (lookup-filter_map_none j d h.0, filter_map-Distinct d h.1)
    ]

  module _ {V : Type 0} where
    skip_head :
        (k : K) (v : V) (d e : Dict K V)
        → lookup eq k d ≡ none
        → All (λ x. lookup eq x.0 d ≡ some x.1) e
        → All (λ x. lookup eq x.0 ((k, v) ∷ d) ≡ some x.1) e
    unfolding lookup
    skip_head k v d [] absent h = tt
    skip_head k v d ((j, w) ∷ e) absent h = elim (Bool-cases (eq k j)) [
      | inl same ↦ absurd (ground (arith, eq_of_true k j same, h.0))
      | inr other ↦ (rw other h.0, skip_head k v d e absent h.1)
    ]

    -- Where no key stands twice, each item is what its key gives.
    pub items-lookup : (d : Dict K V) → Distinct eq d → All (λ x. lookup eq x.0 d ≡ some x.1) d
    unfolding lookup
    items-lookup [] h = tt
    items-lookup ((k, v) ∷ d) h = (rw (eq_refl k) refl, skip_head k v d d h.0 (items-lookup d h.1))
