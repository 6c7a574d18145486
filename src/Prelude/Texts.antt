-- ===== src/Prelude/Texts.antt =====
-- Texts as their characters' codes, where the program compares their order.
use hz.Prelude.{
  ℕ, ◌≡◌, ◌↔◌, refl, Bool, true, false, ◌&&◌, not, List, [], ◌∷◌, ◌==◌, any, arith, if◌then◌else◌,
  Bool-cases, inl, inr,
}
use hz.Prelude.Keys.{Unique}
use hz.Prelude.Latest.{lex_lt}
use hz.Prelude.Sorting.{sorted}

abbrev pub Text : Type 0
Text = List ℕ

unfoldable pub text_eq : Text → Text → Bool
text_eq [] [] = true
text_eq (c ∷ s) (d ∷ t) = c == d && text_eq s t
text_eq _ _ = false

pub text_eq_self : (s : Text) → text_eq s s ≡ true
unfolding text_eq
text_eq_self [] = refl
text_eq_self (c ∷ s) = ground (arith, text_eq_self s)

text_eq-true : (s t : Text) → text_eq s t ≡ true → s ≡ t
unfolding text_eq
text_eq-true [] [] h = refl
text_eq-true (c ∷ s) (d ∷ t) h = ground (arith, text_eq-true s t)
text_eq-true [] (d ∷ t) h = cc
text_eq-true (c ∷ s) [] h = cc

pub text_eq_iff : (s t : Text) → (text_eq s t ≡ true) ↔ (s ≡ t)
text_eq_iff s t = (text_eq-true s t, λ e. rw e (text_eq_self t))

-- `s in texts`
abbrev pub elem : Text → List Text → Bool
elem s texts = any (text_eq s) texts

-- the first occurrences: what a set keeps, of which the code takes the sorted list
unfoldable pub distinct : List Text → List Text
distinct [] = []
distinct (s ∷ rest) = let others = distinct rest in if elem s others then others else s ∷ others

-- `sorted(texts)`
abbrev pub sorted_texts : List Text → List Text
sorted_texts texts = sorted (λ s t. not (lex_lt t s)) texts

pub distinct-Unique : (texts : List Text) → Unique text_eq text_eq_iff (distinct texts)
unfolding distinct
distinct-Unique [] = tt
distinct-Unique (s ∷ rest) = elim (Bool-cases (elem s (distinct rest))) [
  | inl e ↦ rw e (distinct-Unique rest)
  | inr e ↦ rw e (e, distinct-Unique rest)
]
