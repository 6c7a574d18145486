-- ===== src/Prelude/Members.antt =====
-- Members of a filtered list.
use mathlib.Core.Bool.{false≢true}
use mathlib.Core.Logic.Or
use mathlib.Core.List.{Mem, mem-cons, mem-cons_self, mem-cons_of_mem, not-mem-nil, Perm}
use mathlib.Core.List.Perm
use mathlib.Core.Nat as Unary
use mathlib.Core.List as List
use hz.Prelude.{
  ℕ, zero, length, suc, refl, ◌≡◌, sym, Bool, true, List, [], ◌∷◌, filter, All, Bool-cases, inl,
  inr, ◌∙◌, ap,
}

module _ {ℓ} {A : Type ℓ} (test : A → Bool) where
  pub Mem-filter : (a : A) (xs : List A) → Mem a (filter test xs) → (test a ≡ true) × Mem a xs
  Mem-filter a [] h = absurd (not-mem-nil h)
  Mem-filter a (x ∷ xs) h = elim (Bool-cases (test x)) [
    | inl e ↦
        Or.elim (hlevel) (mem-cons.0 (rw e at h))
          (λ same. (ap test same ∙ e, rw same mem-cons_self))
          (λ later. let (t, among) = Mem-filter a xs later in (t, mem-cons_of_mem x among))
    | inr e ↦ let (t, among) = Mem-filter a xs (rw e at h) in (t, mem-cons_of_mem x among)
  ]

  pub filter-Mem : (a : A) (xs : List A) → test a ≡ true → Mem a xs → Mem a (filter test xs)
  filter-Mem a [] t h = absurd (not-mem-nil h)
  filter-Mem a (x ∷ xs) t h = elim (Bool-cases (test x)) [
    | inl e ↦ rw e (
        Or.elim (hlevel) (mem-cons.0 h) (λ same. rw same mem-cons_self)
          (λ later. mem-cons_of_mem x (filter-Mem a xs t later)))
    | inr e ↦ rw e (
        Or.elim (hlevel) (mem-cons.0 h)
          (λ same. absurd (false≢true (sym e ∙ (ap test (sym same) ∙ t))))
          (λ later. filter-Mem a xs t later))
  ]

module _ {ℓ} {A : Type ℓ} (test : A → Bool) (answer : Bool) where
  All-Mem : (a : A) (xs : List A) → All (λ x. test x ≡ answer) xs → Mem a xs → test a ≡ answer
  All-Mem a [] h m = absurd (not-mem-nil m)
  All-Mem a (x ∷ xs) (here, later) m =
      Or.elim (hlevel) (mem-cons.0 m) (λ same. ap test same ∙ here) (λ n. All-Mem a xs later n)

  Mem-All : (xs : List A) → ((a : A) → Mem a xs → test a ≡ answer) → All (λ x. test x ≡ answer) xs
  Mem-All [] h = tt
  Mem-All (x ∷ xs) h = (h x mem-cons_self, Mem-All xs (λ a m. h a (mem-cons_of_mem x m)))

  -- A test that answers the same on a list does so on its permutations.
  pub All-perm :
      {xs ys : List A} → Perm xs ys → All (λ x. test x ≡ answer) xs → All (λ x. test x ≡ answer) ys
  All-perm {xs} {ys} p h = Mem-All ys (λ a m. All-Mem a xs h ((Perm.mem_iff p).1 m))

of_unary : Unary.ℕ → ℕ
of_unary Unary.zero = zero
of_unary (Unary.suc n) = suc (of_unary n)

of_unary-length {ℓ} : {A : Type ℓ} (xs : List A) → of_unary (List.length xs) ≡ length xs
unfolding of_unary
of_unary-length [] = refl
of_unary-length (x ∷ xs) = ap suc (of_unary-length xs)

pub length-perm {ℓ} : {A : Type ℓ} {xs ys : List A} → Perm xs ys → length xs ≡ length ys
length-perm {xs = xs} {ys = ys} p =
    sym (of_unary-length xs) ∙ (ap of_unary (Perm.length-eq p) ∙ of_unary-length ys)
