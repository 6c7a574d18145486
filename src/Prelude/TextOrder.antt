-- ===== src/Prelude/TextOrder.antt =====
-- Python's order on texts, by the numbers of their characters.
use Prim.Native.Nat.{Ordering, compare}
use Prim.Native.Char.{Char, code}
use Prim.Native.String.{String, [], ◌∷◌, compare as text_compare, then as then_of}
use Prim.Native.String.compare as texts
use text.Mathlib.TextEquality.{path_by_compare}
use hz.Prelude.{ℕ, ◌≡◌, refl, sym, ap, ◌∙◌, arith}
use hz.Prelude.Orders.{IsOrder, compare-IsOrder, first_of, flipped}

then_of-first_of : (o p : Ordering) → then_of o p ≡ first_of o p
unfolding first_of
then_of-first_of Ordering.lt p = refl
then_of-first_of Ordering.eq p = refl
then_of-first_of Ordering.gt p = refl

compare-cons :
    (c d : Char) (s t : String)
    → text_compare (c ∷ s) (d ∷ t) ≡ first_of (compare (code c) (code d)) (text_compare s t)
compare-cons c d s t = texts.cons-cons c d s t ∙ then_of-first_of _ _

text_flip : (s t : String) → text_compare t s ≡ flipped (text_compare s t)
unfolding first_of
text_flip [] [] = rw texts.nil-nil refl
text_flip [] (d ∷ t) = rw (texts.nil-cons d t, texts.cons-nil d t) refl
text_flip (c ∷ s) [] = rw (texts.nil-cons c s, texts.cons-nil c s) refl
text_flip (c ∷ s) (d ∷ t) =
    rw (compare-cons c d s t, compare-cons d c t s)
      (ground (arith, text_flip s t, compare-IsOrder.flip (code c) (code d)))

gt_lt : Ordering.gt ≡ Ordering.lt → ⊥
gt_lt h = cc

less_parts :
    (a b c : ℕ) (p q r : Ordering)
    → (p ≡ Ordering.lt → q ≡ Ordering.lt → r ≡ Ordering.lt)
    → first_of (compare a b) p ≡ Ordering.lt
    → first_of (compare b c) q ≡ Ordering.lt
    → first_of (compare a c) r ≡ Ordering.lt
unfolding first_of
less_parts a b c p q r step h k = ground arith

text_same : (s t u : String) → text_compare s t ≡ Ordering.eq → text_compare s u ≡ text_compare t u
text_same s t u h = ap (λ x. text_compare x u) (path_by_compare s t h)

text_less :
    (s t u : String)
    → text_compare s t ≡ Ordering.lt
    → text_compare t u ≡ Ordering.lt
    → text_compare s u ≡ Ordering.lt
unfolding first_of
text_less [] [] u h k = k
text_less [] (d ∷ t) [] h k = absurd (gt_lt (sym (texts.cons-nil d t) ∙ k))
text_less [] (d ∷ t) (e ∷ u) h k = texts.nil-cons e u
text_less (c ∷ s) [] u h k = absurd (gt_lt (sym (texts.cons-nil c s) ∙ h))
text_less (c ∷ s) (d ∷ t) [] h k = absurd (gt_lt (sym (texts.cons-nil d t) ∙ k))
text_less (c ∷ s) (d ∷ t) (e ∷ u) h k =
    compare-cons c e s u
    ∙ less_parts (code c) (code d) (code e) (text_compare s t) (text_compare t u) (text_compare s u)
        (text_less s t u) (sym (compare-cons c d s t) ∙ h) (sym (compare-cons d e t u) ∙ k)

pub text_compare-IsOrder : IsOrder text_compare
text_compare-IsOrder = record { flip = text_flip; same = text_same; less = text_less }
