-- ===== src/RateLimit/Retry.antt =====
-- The bounds on the deques, and the wait that a refusal announces.
use mathlib.Core.Path.{subst₂}
use hz.Prelude.{
  max, ℕ, ◌+◌, ◌*◌, ◌≤◌, ◌<◌, ◌≡◌, refl, sym, ◌∙◌, List, [], ◌∷◌, Option, none, some, arith, leb,
  length, Bool-cases, inl, inr, ap,
}
use hz.Prelude.Dicts.{insert, lookup-insert, insert-Distinct, Distinct}
use hz.RateLimit.{
  Limiter, policy_eq, key_eq, window, expiry, answer, claim, retry_seconds, maximum, second,
}
use hz.RateLimit.Keys.{policy_eq_iff, key_eq_iff}
use hz.RateLimit.Window.{dropped}
use hz.RateLimit.Refinement.{Call, dropped-sweep, sweep-Distinct, global_calls, client_calls}
use hz.RateLimit.Refinement.Steps.{
  expiry-cases, swept, key, global_left, client_left, admitted, refused, claim-answer,
}

pub length-dropped : (span u : ℕ) (vs : List ℕ) → length (dropped span u vs) ≤ length vs
unfolding dropped
length-dropped span u [] = omega arith
length-dropped span u (v ∷ vs) = ground (arith, length-dropped span u vs)

-- no bucket for this call holds more than its limit
pub record HasRoom (s : Limiter) (c : Call) : Type 0 where
  pub global : length (global_calls s c.policy) ≤ c.policy.global_limit
  pub client : length (client_calls s (c.policy, c.client)) ≤ c.policy.per_client
  pub distinct : Distinct key_eq s.clients

-- at `u` the first time of a full bucket has left the window, so there is room
freed :
    (limit span u : ℕ) (vs : List ℕ)
    → 0 < limit
    → length vs ≤ limit
    → ((e : ℕ) → expiry limit span vs ≡ e ∷ [] → e ≤ u)
    → length (dropped span u vs) < limit
unfolding dropped
freed limit span u [] pos fits due = omega arith
freed limit span u (v ∷ vs) pos fits due = elim (Bool-cases (leb limit (length (v ∷ vs)))) [
  | inl e ↦
      let gone : v + span ≤ u = due (v + span) (unfold expiry in rw e) in
      ground (arith, length-dropped span u vs)
  | inr e ↦ ground (arith, length-dropped span u vs)
]

retry_covers : (retry_at now : ℕ) → retry_at ≤ now + retry_seconds retry_at now * second
unfolding retry_seconds
retry_covers retry_at now = omega arith

expiry-nil : (limit span : ℕ) (vs : List ℕ) → length vs < limit → expiry limit span vs ≡ []
unfolding expiry
expiry-nil limit span [] h = refl
expiry-nil limit span (v ∷ vs) h = ground arith

le-maximum : (m : ℕ) (vs : List ℕ) → m ≤ maximum m vs
unfolding maximum
le-maximum m [] = omega arith
le-maximum m (v ∷ vs) = omega (arith, le-maximum (max m v) vs)

le-maximum_two : (m v : ℕ) → (m ≤ maximum m (v ∷ [])) × (v ≤ maximum m (v ∷ []))
unfolding maximum
le-maximum_two m v = omega arith

eq_of_some_eq : (a b : ℕ) → some a ≡ some b → a ≡ b
eq_of_some_eq a b h = cc

module _ (s : Limiter) (c : Call) (room : HasRoom s c) (global_pos : 0 < c.policy.global_limit)
    (client_pos : 0 < c.policy.per_client) where
  length-global_left : length (global_left s c) ≤ c.policy.global_limit
  length-global_left =
      omega (arith, length-dropped (window c.policy) c.now (global_calls s c.policy), room.global)

  length-client_left : length (client_left s c) ≤ c.policy.per_client
  length-client_left =
      rw
        (dropped-sweep (window c.policy) c.now c.now (key s c) s.clients (omega arith)
          room.distinct)
        (omega
          (arith, length-dropped (window c.policy) c.now (client_calls s (key s c)), room.client))

  after_wait :
      (u : ℕ)
      → c.now ≤ u
      → ((e : ℕ)
          → expiry c.policy.global_limit (window c.policy) (global_left s c) ≡ e ∷ []
          → e ≤ u)
      → ((e : ℕ) → expiry c.policy.per_client (window c.policy) (client_left s c) ≡ e ∷ [] → e ≤ u)
      → (claim (refused s c) c.policy c.client u).0 ≡ none
  unfolding answer
  after_wait u later due_global due_client =
      let again : Call = record c { now = u } in
      let dist =
        insert-Distinct key_eq key_eq_iff (key s c) (client_left s c) (swept s c)
          (sweep-Distinct (window c.policy) c.now s.clients room.distinct) in
      rw
        (
          claim-answer (refused s c) again,
          expiry-nil c.policy.global_limit (window c.policy) (global_left (refused s c) again) (
              rw
                (
                  lookup-insert policy_eq policy_eq_iff c.policy c.policy (global_left s c)
                      s.globals,
                  (policy_eq_iff c.policy c.policy).1 refl,
                )
                (freed c.policy.global_limit (window c.policy) u (global_left s c) global_pos
                  length-global_left due_global)),
          expiry-nil c.policy.per_client (window c.policy) (client_left (refused s c) again) (
              rw
                (
                  dropped-sweep (window c.policy) u u (key s c)
                      (insert key_eq (key s c) (client_left s c) (swept s c)) (omega arith) dist,
                  lookup-insert key_eq key_eq_iff (key s c) (key s c) (client_left s c) (swept s c),
                  (key_eq_iff (key s c) (key s c)).1 refl,
                )
                (freed c.policy.per_client (window c.policy) u (client_left s c) client_pos
                  length-client_left due_client)),
        )
        refl

  waited :
      (retry_at wait : ℕ) (s' : Limiter)
      → claim s c.policy c.client c.now ≡ (some (retry_seconds retry_at c.now), refused s c)
      → claim s c.policy c.client c.now ≡ (some wait, s')
      → ((e : ℕ)
          → expiry c.policy.global_limit (window c.policy) (global_left s c) ≡ e ∷ []
          → e ≤ retry_at)
      → ((e : ℕ)
          → expiry c.policy.per_client (window c.policy) (client_left s c) ≡ e ∷ []
          → e ≤ retry_at)
      → (claim s' c.policy c.client (c.now + wait * second)).0 ≡ none
  waited retry_at wait s' said h due_global due_client =
      let same = sym said ∙ h in
      let covers = retry_covers retry_at c.now in
      subst₂ (λ (w : ℕ) (t : Limiter). (claim t c.policy c.client (c.now + w * second)).0 ≡ none)
        (eq_of_some_eq _ _ (ap (λ (a : Option ℕ × Limiter). a.0) same))
        (ap (λ (a : Option ℕ × Limiter). a.1) same)
        (after_wait (c.now + retry_seconds retry_at c.now * second) (omega arith)
          (λ e x. omega (arith, due_global e x)) (λ e x. omega (arith, due_client e x)))

  -- A call that is refused with a wait, and is made again when that wait is over and nothing else was
  -- called, is admitted.
  pub claim-after_wait :
      (wait : ℕ) (s' : Limiter)
      → claim s c.policy c.client c.now ≡ (some wait, s')
      → (claim s' c.policy c.client (c.now + wait * second)).0 ≡ none
  unfolding answer
  claim-after_wait wait s' h =
      elim (expiry-cases c.policy.global_limit (window c.policy) (global_left s c) global_pos) [
        | inl (g, _) ↦
            elim (expiry-cases c.policy.per_client (window c.policy) (client_left s c) client_pos) [
              | inl (k, _) ↦
                  let open_ : claim s c.policy c.client c.now ≡ (none, admitted s c) =
                    claim-answer s c ∙ rw (g, k) in
                  cc (ap (λ (a : Option ℕ × Limiter). a.0) (sym open_ ∙ h))
              | inr (f, k, _) ↦
                  waited (maximum f []) wait s' (claim-answer s c ∙ rw (g, k)) h
                    (λ e x. absurd (ground arith)) (λ e x. ground (arith, le-maximum f []))
            ]
        | inr (f, g, _) ↦
            elim (expiry-cases c.policy.per_client (window c.policy) (client_left s c) client_pos) [
              | inl (k, _) ↦
                  waited (maximum f []) wait s' (claim-answer s c ∙ rw (g, k)) h
                    (λ e x. ground (arith, le-maximum f [])) (λ e x. absurd (ground arith))
              | inr (b, k, _) ↦
                  waited (maximum f (b ∷ [])) wait s' (claim-answer s c ∙ rw (g, k)) h
                    (λ e x. ground (arith, le-maximum_two f b))
                    (λ e x. ground (arith, le-maximum_two f b))
            ]
      ]
