-- ===== src/Prelude/Orders.antt =====
-- Python's order on tuples, as a comparison made of the comparisons of their parts.
use Prim.Native.Nat.{Ordering}
use mathlib.Core.Logic.Or
use mathlib.Core.List.{Mem, mem-cons, mem-cons_self, mem-cons_of_mem}
use hz.Prelude.{
  ◌≡◌, sym, ap, ◌∙◌, Bool, true, false, arith, inl, inr, List, [], ◌∷◌, All, Bool-cases,
  if◌then◌else◌,
}
use Prim.Native.Nat.{compare}
use hz.Prelude.Int.{ℤ, pos_part, neg_part}
use Prim.Native.Nat.{◌+◌}

-- the first answer that is not `equal`
unfoldable pub first_of : Ordering → Ordering → Ordering
first_of Ordering.lt later = Ordering.lt
first_of Ordering.eq later = later
first_of Ordering.gt later = Ordering.gt

abbrev pub flipped : Ordering → Ordering
flipped Ordering.lt = Ordering.gt
flipped Ordering.eq = Ordering.eq
flipped Ordering.gt = Ordering.lt

-- `<=` and `<`, of the answer of a comparison
abbrev pub is_le : Ordering → Bool
is_le Ordering.gt = false
is_le other = true

abbrev pub is_lt : Ordering → Bool
is_lt Ordering.lt = true
is_lt other = false

pub record IsOrder {A : Type 0} (cmp : A → A → Ordering) : Type 0 where
  pub flip : (x y : A) → cmp y x ≡ flipped (cmp x y)
  pub same : (x y z : A) → cmp x y ≡ Ordering.eq → cmp x z ≡ cmp y z
  pub less : (x y z : A) → cmp x y ≡ Ordering.lt → cmp y z ≡ Ordering.lt → cmp x z ≡ Ordering.lt

pub compare-IsOrder : IsOrder compare
compare-IsOrder = record {
  flip = λ x y. ground arith;
  same = λ x y z h. ground arith;
  less = λ x y z h k. ground arith;
}

-- `<` on integers
unfoldable pub compare_ℤ : ℤ → ℤ → Ordering
compare_ℤ a b = compare (pos_part a + neg_part b) (pos_part b + neg_part a)

pub compare_ℤ-IsOrder : IsOrder compare_ℤ
unfolding compare_ℤ
compare_ℤ-IsOrder = record {
  flip = λ x y. ground arith;
  same = λ x y z h. ground arith;
  less = λ x y z h k. ground arith;
}

module _ {A B : Type 0} (f : A → B) {cmp : B → B → Ordering} (o : IsOrder cmp) where
  -- the comparison by a key
  pub by-IsOrder : IsOrder (λ x y. cmp (f x) (f y))
  by-IsOrder = record {
    flip = λ x y. o.flip (f x) (f y);
    same = λ x y z. o.same (f x) (f y) (f z);
    less = λ x y z. o.less (f x) (f y) (f z);
  }

module _ {A : Type 0} {cmp : A → A → Ordering} (o : IsOrder cmp) where
  -- `key=lambda x: -x`
  pub down-IsOrder : IsOrder (λ x y. cmp y x)
  down-IsOrder = record {
    flip = λ x y. o.flip y x;
    same = λ x y z h. o.flip x z ∙ (ap flipped (sym (o.same y x z h)) ∙ sym (o.flip y z));
    less = λ x y z h k. o.less z y x k h;
  }

  pub le_total : (x y : A) → is_le (cmp x y) ≡ false → is_le (cmp y x) ≡ true
  le_total x y h = ground (arith, o.flip x y)

  pub le_trans :
      (x y z : A) → is_le (cmp x y) ≡ true → is_le (cmp y z) ≡ true → is_le (cmp x z) ≡ true
  le_trans x y z h k =
      ground (arith, o.same x y z, o.less x y z, o.same z y x, o.flip y z, o.flip x z, o.flip y x)

module _ {A : Type 0} {c d : A → A → Ordering} (o : IsOrder c) (p : IsOrder d) where
  pub first_of-IsOrder : IsOrder (λ x y. first_of (c x y) (d x y))
  unfolding first_of
  first_of-IsOrder = record {
    flip = λ x y. ground (arith, o.flip x y, p.flip x y);
    same = λ x y z h. ground (arith, o.same x y z, p.same x y z);
    less = λ x y z h k.
        ground
          (arith, o.less x y z, p.less x y z, o.same x y z, o.same y z x, o.flip x y, o.flip z x);
  }

-- the first of the least of a list, after the best so far
module _ {A : Type 0} (cmp : A → A → Ordering) where
  unfoldable pub least : A → List A → A
  least best [] = best
  least best (x ∷ rest) = least (if is_lt (cmp x best) then x else best) rest

module _ {A : Type 0} {cmp : A → A → Ordering} (o : IsOrder cmp) where
  le_self : (x : A) → is_le (cmp x x) ≡ true
  le_self x = ground (arith, o.flip x x)

  better : (best x : A) → A
  better best x = if is_lt (cmp x best) then x else best

  better_le :
      (best x : A)
      → (is_le (cmp (better best x) best) ≡ true) × (is_le (cmp (better best x) x) ≡ true)
  unfolding better
  better_le best x = elim (Bool-cases (is_lt (cmp x best))) [
    | inl e ↦ rw e (ground arith, le_self x)
    | inr e ↦ rw e (le_self best, ground (arith, o.flip x best))
  ]

  -- Nothing of the list, nor the best before it, is less than the one that is found.
  pub least-All :
      (best : A) (xs : List A)
      → (is_le (cmp (least cmp best xs) best) ≡ true)
        × All (λ x. is_le (cmp (least cmp best xs) x) ≡ true) xs
  unfolding least better
  least-All best [] = (le_self best, tt)
  least-All best (x ∷ rest) =
      let (low, others) = least-All (better best x) rest in
      let (first, second) = better_le best x in
      (
        le_trans o _ (better best x) best low first,
        (le_trans o _ (better best x) x low second, others),
      )

  pub least-Mem : (best : A) (xs : List A) → Mem (least cmp best xs) (best ∷ xs)
  unfolding least
  least-Mem best [] = mem-cons_self
  least-Mem best (x ∷ rest) = elim (Bool-cases (is_lt (cmp x best))) [
    | inl e ↦ rw e (mem-cons_of_mem best (least-Mem x rest))
    | inr e ↦ rw e (skip (least-Mem best rest))
  ]
    where
      skip : {m : A} → Mem m (best ∷ rest) → Mem m (best ∷ (x ∷ rest))
      skip h =
          Or.elim (hlevel) (mem-cons.0 h) (λ same. rw same mem-cons_self)
            (λ later. mem-cons_of_mem best (mem-cons_of_mem x later))
