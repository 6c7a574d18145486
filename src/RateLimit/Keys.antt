-- ===== src/RateLimit/Keys.antt =====
-- The keys of the two dictionaries: their tests are their equality.
use hz.Prelude.{◌≡◌, ◌↔◌, true, [], ◌∷◌, arith, eq_iff, ap, refl}
use hz.RateLimit.{Text, text_eq, RateLimitPolicy, policy_eq, ClientKey, key_eq}

text_eq-eq : (s t : Text) → text_eq s t ≡ true → s ≡ t
unfolding text_eq
text_eq-eq [] [] h = refl
text_eq-eq (c ∷ s) (d ∷ t) h = ground (arith, text_eq-eq s t)
text_eq-eq [] (d ∷ t) h = cc
text_eq-eq (c ∷ s) [] h = cc

text_eq_refl : (s : Text) → text_eq s s ≡ true
unfolding text_eq
text_eq_refl [] = refl
text_eq_refl (c ∷ s) = ground (arith, text_eq_refl s)

text_eq_of_eq : (s t : Text) → s ≡ t → text_eq s t ≡ true
text_eq_of_eq s t e = rw e (text_eq_refl t)

pub policy_eq_iff : (p q : RateLimitPolicy) → (policy_eq p q ≡ true) ↔ (p ≡ q)
unfolding policy_eq
policy_eq_iff p q = ground (arith, eq_iff p.method q.method, eq_iff p.path_prefix q.path_prefix)

pub key_eq_iff : (a b : ClientKey) → (key_eq a b ≡ true) ↔ (a ≡ b)
unfolding key_eq
key_eq_iff (p, c) (q, d) = (
  λ h. ground (arith, (policy_eq_iff p q).0, text_eq-eq c d),
  λ e. ground (
    arith,
    (policy_eq_iff p q).1 (ap (λ (k : ClientKey). k.0) e),
    text_eq_of_eq c d (ap (λ (k : ClientKey). k.1) e),
  ),
)
