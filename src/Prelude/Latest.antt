-- ===== src/Prelude/Latest.antt =====
-- Tuples of numbers in Python's order, and the loop that keeps for each key the item whose tuple is
-- the greatest.
use mathlib.Core.List.{
  Mem, mem-cons_self, mem-append_left, mem-append_right, append-nil, append_assoc,
}
use hz.Prelude.{
  ℕ, ◌≡◌, ◌↔◌, refl, Bool, true, false, Option, none, some, List, [], ◌∷◌, ltb, ◌==◌, if◌then◌else◌,
  arith, inl, inr, Bool-cases, All, All-append, ◌++◌,
}
use hz.Prelude.Dicts.{Dict, lookup, insert, Distinct, lookup-insert, insert-Distinct}

-- `<` on tuples
unfoldable pub lex_lt : List ℕ → List ℕ → Bool
lex_lt [] [] = false
lex_lt [] (y ∷ ys) = true
lex_lt (x ∷ xs) [] = false
lex_lt (x ∷ xs) (y ∷ ys) = let rest = lex_lt xs ys in if x == y then rest else ltb x y

pub lex_lt_self : (xs : List ℕ) → lex_lt xs xs ≡ false
unfolding lex_lt
lex_lt_self [] = refl
lex_lt_self (x ∷ xs) = ground (arith, lex_lt_self xs)

-- what is not less in one step is not less in two
pub lex_lt_trans :
    (xs ys zs : List ℕ) → lex_lt ys xs ≡ false → lex_lt zs ys ≡ false → lex_lt zs xs ≡ false
unfolding lex_lt
lex_lt_trans [] ys [] h k = refl
lex_lt_trans [] [] (z ∷ zs) h k = refl
lex_lt_trans [] (y ∷ ys) (z ∷ zs) h k = refl
lex_lt_trans (x ∷ xs) [] zs h k = ground arith
lex_lt_trans (x ∷ xs) (y ∷ ys) [] h k = ground arith
lex_lt_trans (x ∷ xs) (y ∷ ys) (z ∷ zs) h k = ground (arith, lex_lt_trans xs ys zs)

pub lex_lt_asym : (xs ys : List ℕ) → lex_lt xs ys ≡ true → lex_lt ys xs ≡ false
unfolding lex_lt
lex_lt_asym [] [] h = refl
lex_lt_asym [] (y ∷ ys) h = refl
lex_lt_asym (x ∷ xs) [] h = ground arith
lex_lt_asym (x ∷ xs) (y ∷ ys) h = ground (arith, lex_lt_asym xs ys)

module _ {A K : Type 0} (eq : K → K → Bool) (key : A → K) (rank : A → List ℕ) where
  -- `if existing is None or rank(item) > rank(existing): d[key(item)] = item`
  unfoldable pub keep : Option A → A → Dict K A → Dict K A
  keep none a d = insert eq (key a) a d
  keep (some b) a d = if lex_lt (rank b) (rank a) then insert eq (key a) a d else d

  -- the loop over the items
  unfoldable pub latest : List A → Dict K A → Dict K A
  unfolding keep
  latest [] d = d
  latest (a ∷ rest) d = latest rest (keep (lookup eq (key a) d) a d)

  -- An item `a` kept under `k`, of those that have been seen: it is one of them, of that key, and
  -- none of that key has a greater tuple. Where none is kept, none has been seen.
  abbrev pub IsLatest : List A → K → Option A → Type 0
  IsLatest seen k none = All (λ x. eq (key x) k ≡ false) seen
  IsLatest seen k (some a) =
      Mem a seen
      × (eq (key a) k ≡ true)
      × All (λ x. eq (key x) k ≡ true → lex_lt (rank a) (rank x) ≡ false) seen

module _ {A K : Type 0} (eq : K → K → Bool) (key : A → K) (rank : A → List ℕ)
    (eq_iff : (a b : K) → (eq a b ≡ true) ↔ (a ≡ b)) where
  abbrev Seen : List A → K → Option A → Type 0
  Seen = IsLatest eq key rank

  All-vacuous :
      (k : K) (a : A) (seen : List A)
      → All (λ x. eq (key x) k ≡ false) seen
      → All (λ x. eq (key x) k ≡ true → lex_lt (rank a) (rank x) ≡ false) seen
  All-vacuous k a [] h = tt
  All-vacuous k a (x ∷ xs) h = (λ e. ground (arith, h.0), All-vacuous k a xs h.1)

  All-greater :
      (k : K) (a b : A) (seen : List A)
      → lex_lt (rank b) (rank a) ≡ true
      → All (λ x. eq (key x) k ≡ true → lex_lt (rank b) (rank x) ≡ false) seen
      → All (λ x. eq (key x) k ≡ true → lex_lt (rank a) (rank x) ≡ false) seen
  All-greater k a b [] newer h = tt
  All-greater k a b (x ∷ xs) newer h = (
    λ e. lex_lt_trans (rank x) (rank b) (rank a) (h.0 e) (lex_lt_asym (rank b) (rank a) newer),
    All-greater k a b xs newer h.1,
  )

  keep_same :
      (a : A) (seen : List A) (d : Dict K A) (o : Option A)
      → lookup eq (key a) d ≡ o
      → Seen seen (key a) o
      → Seen (seen ++ a ∷ []) (key a) (lookup eq (key a) (keep eq key rank o a d))
  unfolding keep
  keep_same a seen d none e h =
      let self : eq (key a) (key a) ≡ true = (eq_iff (key a) (key a)).1 refl in
      rw (lookup-insert eq eq_iff (key a) (key a) a d, self)
        (
          mem-append_right seen mem-cons_self,
          self,
          All-append _ seen (a ∷ []) (All-vacuous (key a) a seen h)
              (λ same. lex_lt_self (rank a), tt),
        )
  keep_same a seen d (some b) e (among, same_key, greatest) =
      let self : eq (key a) (key a) ≡ true = (eq_iff (key a) (key a)).1 refl in
      elim (Bool-cases (lex_lt (rank b) (rank a))) [
        | inl newer ↦
            rw (newer, lookup-insert eq eq_iff (key a) (key a) a d, self)
              (
                mem-append_right seen mem-cons_self,
                self,
                All-append _ seen (a ∷ []) (All-greater (key a) a b seen newer greatest)
                    (λ same. lex_lt_self (rank a), tt),
              )
        | inr older ↦
            rw (older, e)
              (
                mem-append_left (a ∷ []) among,
                same_key,
                All-append _ seen (a ∷ []) greatest (λ same. older, tt),
              )
      ]

  lookup-keep_other :
      (k : K) (a : A) (d : Dict K A) (o : Option A)
      → eq (key a) k ≡ false
      → lookup eq k (keep eq key rank o a d) ≡ lookup eq k d
  unfolding keep
  lookup-keep_other k a d none h = rw (lookup-insert eq eq_iff (key a) k a d, h) refl
  lookup-keep_other k a d (some b) h = elim (Bool-cases (lex_lt (rank b) (rank a))) [
    | inl newer ↦ rw (newer, lookup-insert eq eq_iff (key a) k a d, h) refl
    | inr older ↦ rw older refl
  ]

  Seen-other :
      (k : K) (a : A) (seen : List A) (o : Option A)
      → eq (key a) k ≡ false
      → Seen seen k o
      → Seen (seen ++ a ∷ []) k o
  Seen-other k a seen none h s = All-append _ seen (a ∷ []) s (h, tt)
  Seen-other k a seen (some b) h (among, same_key, greatest) = (
    mem-append_left (a ∷ []) among,
    same_key,
    All-append _ seen (a ∷ []) greatest (λ same. ground (arith, h), tt),
  )

  keep-Seen :
      (k : K) (a : A) (seen : List A) (d : Dict K A)
      → Seen seen k (lookup eq k d)
      → Seen (seen ++ a ∷ []) k (lookup eq k (keep eq key rank (lookup eq (key a) d) a d))
  keep-Seen k a seen d h = elim (Bool-cases (eq (key a) k)) [
    | inl e ↦
        let same = (eq_iff (key a) k).0 e in
        rw (← same) (keep_same a seen d (lookup eq (key a) d) refl (rw same h))
    | inr e ↦ rw (lookup-keep_other k a d (lookup eq (key a) d) e) (Seen-other k a seen _ e h)
  ]

  latest-Seen :
      (k : K) (items seen : List A) (d : Dict K A)
      → Seen seen k (lookup eq k d)
      → Seen (seen ++ items) k (lookup eq k (latest eq key rank items d))
  unfolding latest
  latest-Seen k [] seen d h = rw (append-nil seen) h
  latest-Seen k (a ∷ rest) seen d h = rw (← append_assoc seen (a ∷ []) rest) (
      latest-Seen k rest (seen ++ a ∷ []) (keep eq key rank (lookup eq (key a) d) a d)
        (keep-Seen k a seen d h))

  -- What the loop keeps of all items under a key is the latest of that key.
  pub latest-IsLatest :
      (k : K) (items : List A)
      → IsLatest eq key rank items k (lookup eq k (latest eq key rank items []))
  unfolding lookup
  latest-IsLatest k items = latest-Seen k items [] [] tt

  keep-Distinct :
      (a : A) (d : Dict K A) (o : Option A) → Distinct eq d → Distinct eq (keep eq key rank o a d)
  unfolding keep
  keep-Distinct a d none h = insert-Distinct eq eq_iff (key a) a d h
  keep-Distinct a d (some b) h = elim (Bool-cases (lex_lt (rank b) (rank a))) [
    | inl newer ↦ rw newer (insert-Distinct eq eq_iff (key a) a d h)
    | inr older ↦ rw older h
  ]

  pub latest-Distinct :
      (items : List A) (d : Dict K A) → Distinct eq d → Distinct eq (latest eq key rank items d)
  unfolding latest
  latest-Distinct [] d h = h
  latest-Distinct (a ∷ rest) d h =
      latest-Distinct rest _ (keep-Distinct a d (lookup eq (key a) d) h)
