-- ===== src/Prelude/Keys.antt =====
-- A dictionary whose keys are among the items of a list without repetition.
use hz.Prelude.{
  ℕ, suc, ◌≤◌, ◌≡◌, ◌↔◌, refl, sym, ◌∙◌, Bool, true, false, none, is_some, List, [], ◌∷◌, any,
  filter, length, length-filter, All, Bool-cases, inl, inr, arith,
}
use hz.Prelude.Dicts.{Dict, lookup, Distinct}

full_filter :
    {K : Type 0} (test : K → Bool) (xs : List K)
    → length (filter test xs) ≡ length xs
    → All (λ x. test x ≡ true) xs
full_filter test [] h = tt
full_filter test (x ∷ xs) h = elim (Bool-cases (test x)) [
  | inl e ↦
      let rest : length (filter test xs) ≡ length xs = ground arith in (e, full_filter test xs rest)
  | inr e ↦ absurd (ground (arith, length-filter test xs))
]

module _ {K : Type 0} (eq : K → K → Bool) (eq_iff : (a b : K) → (eq a b ≡ true) ↔ (a ≡ b)) where
  abbrev pub Unique : List K → Type 0
  Unique [] = Unit
  Unique (x ∷ xs) = (any (eq x) xs ≡ false) × Unique xs

  module _ {V : Type 0} where
    -- how many of the items are keys
    abbrev keys_among : Dict K V → List K → ℕ
    keys_among d xs = length (filter (λ x. is_some (lookup eq x d)) xs)

    absent :
        (k : K) (v : V) (d : Dict K V) (xs : List K)
        → any (eq k) xs ≡ false
        → keys_among ((k, v) ∷ d) xs ≡ keys_among d xs
    unfolding lookup
    absent k v d [] h = refl
    absent k v d (x ∷ xs) h =
        let other : eq k x ≡ false = ground arith in
        let later : any (eq k) xs ≡ false = ground arith in
        rw other (ground (arith, absent k v d xs later))

    present :
        (k : K) (v : V) (d : Dict K V) (xs : List K)
        → Unique xs
        → lookup eq k d ≡ none
        → any (eq k) xs ≡ true
        → keys_among ((k, v) ∷ d) xs ≡ suc (keys_among d xs)
    unfolding lookup
    present k v d [] u fresh h = cc
    present k v d (x ∷ xs) u fresh h = elim (Bool-cases (eq k x)) [
      | inl same ↦
          let e : k ≡ x = (eq_iff k x).0 same in
          let rest : any (eq k) xs ≡ false = rw e u.0 in
          let missing : lookup eq x d ≡ none = rw (← e) fresh in
          rw (same, missing) (ground (arith, absent k v d xs rest))
      | inr other ↦
          let later : any (eq k) xs ≡ true = ground arith in
          rw other (ground (arith, present k v d xs u.1 fresh later))
    ]

    length-eq-keys_among :
        (d : Dict K V) (xs : List K)
        → Unique xs
        → Distinct eq d
        → All (λ e. any (eq e.0) xs ≡ true) d
        → length d ≡ keys_among d xs
    unfolding lookup
    length-eq-keys_among [] xs u h all = none_among xs
      where
        none_among : (ys : List K) → 0 ≡ keys_among [] ys
        none_among [] = refl
        none_among (y ∷ ys) = none_among ys
    length-eq-keys_among ((k, v) ∷ d) xs u h all =
        omega (arith, present k v d xs u h.0 all.0, length-eq-keys_among d xs u h.1 all.1)

    -- Such a dictionary has no more items than the list, and with as many it has a value for each.
    pub length-keys-le :
        (d : Dict K V) (xs : List K)
        → Unique xs
        → Distinct eq d
        → All (λ e. any (eq e.0) xs ≡ true) d
        → length d ≤ length xs
    length-keys-le d xs u h all = omega (
      arith,
      length-eq-keys_among d xs u h all,
      length-filter (λ (x : K). is_some (lookup eq x d)) xs,
    )

    pub keys_full :
        (d : Dict K V) (xs : List K)
        → Unique xs
        → Distinct eq d
        → All (λ e. any (eq e.0) xs ≡ true) d
        → length d ≡ length xs
        → All (λ x. is_some (lookup eq x d) ≡ true) xs
    keys_full d xs u h all same =
        full_filter (λ x. is_some (lookup eq x d)) xs
          (sym (length-eq-keys_among d xs u h all) ∙ same)
