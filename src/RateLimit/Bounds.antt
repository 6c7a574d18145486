-- ===== src/RateLimit/Bounds.antt =====
-- No bucket ever holds more calls than its limit.
use hz.Prelude.{
  ℕ, ◌≤◌, ◌<◌, ◌≡◌, Bool, true, List, [], ◌∷◌, ◌++◌, some, none, arith, length, length-append,
  Bool-cases, inl, inr, ◌↔◌, ltb, ltb→lt, Option,
}
use hz.Prelude.Int.{sub_ℕ}
use hz.Prelude.Dicts.{
  Dict, lookup, insert, lookup-insert, insert-Distinct, lookup-filter_map, Distinct,
}
use mathlib.Core.Option
use hz.RateLimit.{
  RateLimitPolicy, ClientKey, Limiter, policy_eq, key_eq, window, or_nil, sweep, answer, claim,
  left_over, empty, discard_before,
}
use hz.RateLimit.Keys.{policy_eq_iff, key_eq_iff}
use hz.RateLimit.Window.{discard_before-dropped}
use hz.RateLimit.Retry.{HasRoom, length-dropped}
use hz.RateLimit.Refinement.{Call, or_nil-non_nil, sweep-Distinct, global_calls, client_calls}
use hz.RateLimit.Refinement.Steps.{
  expiry-cases, swept, key, global_left, client_left, admitted, refused, claim-answer,
}

pub record IsBounded (s : Limiter) : Type 0 where
  pub globals : (p : RateLimitPolicy) → length (global_calls s p) ≤ p.global_limit
  pub clients : (k : ClientKey) → length (client_calls s k) ≤ (k.0).per_client
  pub distinct : Distinct key_eq s.clients

pub IsBounded-HasRoom : (s : Limiter) (c : Call) → IsBounded s → HasRoom s c
IsBounded-HasRoom s c b = record {
  global = b.globals c.policy;
  client = b.clients (c.policy, c.client);
  distinct = b.distinct;
}

-- storing a deque that fits
module _ {K : Type 0} (eq : K → K → Bool) (eq_iff : (a b : K) → (eq a b ≡ true) ↔ (a ≡ b))
    (limit : K → ℕ) where
  insert-fits :
      (d : Dict K (List ℕ)) (k₀ : K) (vs : List ℕ)
      → ((k : K) → length (or_nil (lookup eq k d)) ≤ limit k)
      → length vs ≤ limit k₀
      → (k : K) → length (or_nil (lookup eq k (insert eq k₀ vs d))) ≤ limit k
  insert-fits d k₀ vs h fits k = elim (Bool-cases (eq k₀ k)) [
    | inl e ↦ rw (lookup-insert eq eq_iff k₀ k vs d, e) (rw (← (eq_iff k₀ k).0 e) fits)
    | inr e ↦ rw (lookup-insert eq eq_iff k₀ k vs d, e) (h k)
  ]

length-left_over :
    (span now : ℕ) (o : Option (List ℕ))
    → length (or_nil (Option.bind o (left_over (sub_ℕ now span)))) ≤ length (or_nil o)
unfolding left_over Option.bind
length-left_over span now none = omega arith
length-left_over span now (some vs) =
    rw (or_nil-non_nil (discard_before (sub_ℕ now span) vs), discard_before-dropped span now vs)
      (length-dropped span now vs)

-- sweeping shortens deques
length-sweep :
    (span now : ℕ) (k : ClientKey) (d : Dict ClientKey (List ℕ))
    → Distinct key_eq d
    → length (or_nil (lookup key_eq k (sweep (sub_ℕ now span) d)))
      ≤ length (or_nil (lookup key_eq k d))
unfolding sweep
length-sweep span now k d distinct = elim (Bool-cases (ltb 1024 (length d))) [
  | inl e ↦
      rw (e, lookup-filter_map key_eq key_eq_iff (left_over (sub_ℕ now span)) k d distinct)
        (length-left_over span now (lookup key_eq k d))
  | inr e ↦ rw e (omega arith)
]

module _ (s : Limiter) (c : Call) (b : IsBounded s) (global_pos : 0 < c.policy.global_limit)
    (client_pos : 0 < c.policy.per_client) where
  swept_fits : (k : ClientKey) → length (or_nil (lookup key_eq k (swept s c))) ≤ (k.0).per_client
  swept_fits k =
      omega (arith, length-sweep (window c.policy) c.now k s.clients b.distinct, b.clients k)

  swept-Distinct : Distinct key_eq (swept s c)
  swept-Distinct = sweep-Distinct (window c.policy) c.now s.clients b.distinct

  left_fits :
      (length (global_left s c) ≤ c.policy.global_limit)
      × (length (client_left s c) ≤ c.policy.per_client)
  left_fits = (
    omega (
      arith,
      length-dropped (window c.policy) c.now (global_calls s c.policy),
      b.globals c.policy,
    ),
    omega (
      arith,
      length-dropped (window c.policy) c.now (or_nil (lookup key_eq (key s c) (swept s c))),
      swept_fits (key s c),
    ),
  )

  IsBounded-refused : IsBounded (refused s c)
  IsBounded-refused = record {
    globals =
        insert-fits policy_eq policy_eq_iff (λ p. p.global_limit) s.globals c.policy
          (global_left s c) b.globals left_fits.0;
    clients =
        insert-fits key_eq key_eq_iff (λ k. (k.0).per_client) (swept s c) (key s c)
          (client_left s c) swept_fits left_fits.1;
    distinct =
        insert-Distinct key_eq key_eq_iff (key s c) (client_left s c) (swept s c) swept-Distinct;
  }

  IsBounded-admitted :
      length (global_left s c) < c.policy.global_limit
      → length (client_left s c) < c.policy.per_client
      → IsBounded (admitted s c)
  IsBounded-admitted g l = record {
    globals =
        insert-fits policy_eq policy_eq_iff (λ p. p.global_limit) s.globals c.policy
          (global_left s c ++ c.now ∷ []) b.globals
          (omega (arith, length-append (global_left s c) (c.now ∷ [])));
    clients =
        insert-fits key_eq key_eq_iff (λ k. (k.0).per_client) (swept s c) (key s c)
          (client_left s c ++ c.now ∷ []) swept_fits
          (omega (arith, length-append (client_left s c) (c.now ∷ [])));
    distinct =
        insert-Distinct key_eq key_eq_iff (key s c) (client_left s c ++ c.now ∷ []) (swept s c)
          swept-Distinct;
  }

  -- A call, admitted or refused, leaves no bucket with more calls than its limit.
  pub claim-IsBounded : IsBounded (claim s c.policy c.client c.now).1
  unfolding answer
  claim-IsBounded =
      elim (expiry-cases c.policy.global_limit (window c.policy) (global_left s c) global_pos) [
        | inl (g, gl) ↦
            elim (expiry-cases c.policy.per_client (window c.policy) (client_left s c) client_pos) [
              | inl (k, kl) ↦
                  rw (claim-answer s c, g, k) (IsBounded-admitted (ltb→lt _ _ gl) (ltb→lt _ _ kl))
              | inr (f, k, _) ↦ rw (claim-answer s c, g, k) IsBounded-refused
            ]
        | inr (f, g, _) ↦ rw (claim-answer s c, g) IsBounded-refused
      ]

pub IsBounded-empty : IsBounded empty
unfolding lookup
IsBounded-empty = record { globals = λ p. omega arith; clients = λ k. omega arith; distinct = tt }
