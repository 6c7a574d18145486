-- ===== src/Prelude/Groups.antt =====
-- A `defaultdict(list)` that collects items by a key.
use mathlib.Core.List.{Perm, append_assoc, perm_append_comm}
use mathlib.Core.List.Perm
use hz.Prelude.{
  ◌≡◌, refl, sym, Bool, true, Option, none, some, List, [], ◌∷◌, ◌++◌, All, All-append, Bool-cases,
  inl, inr, ◌↔◌,
}
use hz.Prelude.Dicts.{Dict, lookup, insert}
use hz.Prelude.Sorting.{sorted, insert_sorted}

abbrev pub list_or_empty : {A : Type 0} → Option (List A) → List A
list_or_empty none = []
list_or_empty (some items) = items

-- all items, key after key
abbrev pub items_of : {K A : Type 0} → Dict K (List A) → List A
items_of [] = []
items_of ((k, items) ∷ rest) = items ++ items_of rest

-- each item has the property that its key asks for
abbrev pub Fit : {K A : Type 0} → (K → A → Type 0) → Dict K (List A) → Type 0
Fit P d = All (λ entry. All (P entry.0) entry.1) d

module _ {K A : Type 0} (eq : K → K → Bool) where
  -- `d[key].append(item)`
  unfoldable pub append_at : K → A → Dict K (List A) → Dict K (List A)
  append_at key item d = insert eq key (list_or_empty (lookup eq key d) ++ item ∷ []) d

  -- one more item under a key of which `found` is the list
  items_of-insert :
      (key : K) (item : A) (found : Option (List A)) (d : Dict K (List A))
      → lookup eq key d ≡ found
      → Perm
          (items_of (insert eq key (list_or_empty found ++ item ∷ []) d))
          (items_of d ++ item ∷ [])
  unfolding insert lookup
  items_of-insert key item found [] h = rw (← h) (Perm.refl _)
  items_of-insert key item found ((j, items) ∷ rest) h = elim (Bool-cases (eq j key)) [
    | inl e ↦
        let same : found ≡ some items = sym (rw e at h) in
        rw
          (
            e,
            same,
            append_assoc items (item ∷ []) (items_of rest),
            append_assoc items (items_of rest) (item ∷ []),
          )
          (Perm.append_left items (perm_append_comm (item ∷ []) (items_of rest)))
    | inr e ↦
        rw (e, append_assoc items (items_of rest) (item ∷ []))
          (Perm.append_left items (items_of-insert key item found rest (rw e at h)))
  ]

  pub items_of-append_at :
      (key : K) (item : A) (d : Dict K (List A))
      → Perm (items_of (append_at key item d)) (items_of d ++ item ∷ [])
  unfolding append_at
  items_of-append_at key item d = items_of-insert key item _ d refl

  module _ (eq_iff : (a b : K) → (eq a b ≡ true) ↔ (a ≡ b)) (P : K → A → Type 0) where
    Fit-insert :
        (key : K) (item : A) (found : Option (List A)) (d : Dict K (List A))
        → lookup eq key d ≡ found
        → P key item
        → Fit P d
        → Fit P (insert eq key (list_or_empty found ++ item ∷ []) d)
    unfolding insert lookup
    Fit-insert key item found [] h p f = rw (← h) ((p, tt), tt)
    Fit-insert key item found ((j, items) ∷ rest) h p f = elim (Bool-cases (eq j key)) [
      | inl e ↦
          let same : found ≡ some items = sym (rw e at h) in
          rw (e, same) (All-append (P j) items (item ∷ []) f.0 (rw ((eq_iff j key).0 e) p, tt), f.1)
      | inr e ↦ rw e (f.0, Fit-insert key item found rest (rw e at h) p f.1)
    ]

    pub append_at-Fit :
        (key : K) (item : A) (d : Dict K (List A))
        → P key item
        → Fit P d
        → Fit P (append_at key item d)
    unfolding append_at
    append_at-Fit key item d = Fit-insert key item _ d refl

module _ {K A : Type 0} (before : K × List A → K × List A → Bool) where
  swap_blocks : (xs ys zs : List A) → Perm (xs ++ (ys ++ zs)) (ys ++ (xs ++ zs))
  swap_blocks xs ys zs =
      rw (← append_assoc xs ys zs, ← append_assoc ys xs zs)
        (Perm.append_right zs (perm_append_comm xs ys))

  items_of-insert_sorted :
      (x : K × List A) (d : Dict K (List A))
      → Perm (items_of (insert_sorted before x d)) (x.1 ++ items_of d)
  unfolding insert_sorted
  items_of-insert_sorted x [] = Perm.refl _
  items_of-insert_sorted x (y ∷ rest) = elim (Bool-cases (before x y)) [
    | inl e ↦ rw e (Perm.refl _)
    | inr e ↦ rw e (
        Perm.trans (Perm.append_left y.1 (items_of-insert_sorted x rest))
          (swap_blocks y.1 x.1 (items_of rest)))
  ]

  pub items_of-sorted : (d : Dict K (List A)) → Perm (items_of (sorted before d)) (items_of d)
  unfolding sorted
  items_of-sorted [] = Perm.refl []
  items_of-sorted (x ∷ rest) =
      Perm.trans (items_of-insert_sorted x (sorted before rest))
        (Perm.append_left x.1 (items_of-sorted rest))
