-- ===== src/RateLimit/Refinement/Runs.antt =====
-- Sequences of calls: the limiter decides as its specification, and never admits too many.
use hz.Prelude.{
  ℕ, ◌+◌, ◌≤◌, ◌<◌, ◌≡◌, refl, ap, true, false, List, [], ◌∷◌, ◌++◌, arith, if◌then◌else◌, length,
  All, Bool-cases, inl, inr, is_some,
}
use hz.RateLimit.{RateLimitPolicy, Limiter, empty, window, claim, policy_eq}
use hz.RateLimit.Window.{recent}
use hz.RateLimit.Refinement.{Call, Log, Tracks, admits, decisions, ideal_decisions, of_policy}
use hz.RateLimit.Refinement.Steps.{
  claim_cases, admitted, refused, Tracks-admitted, Tracks-refused, times_of-append,
}
use hz.RateLimit.Keys.{policy_eq_iff}
use hz.Prelude.Dicts.{lookup}

-- calls in the order of the clock, whose policies have positive limits and one window
abbrev pub IsRun : ℕ → ℕ → List Call → Type 0
IsRun span past [] = Unit
IsRun span past (c ∷ rest) =
    ((past ≤ c.now)
      × (window c.policy ≡ span)
      × (0 < c.policy.global_limit)
      × (0 < c.policy.per_client))
    × IsRun span c.now rest

decisions_lem :
    (span past : ℕ) (s : Limiter) (log : Log) (calls : List Call)
    → Tracks span past s log
    → IsRun span past calls
    → decisions s calls ≡ ideal_decisions log calls
unfolding decisions ideal_decisions
decisions_lem span past s log [] t h = refl
decisions_lem span past s log (c ∷ rest) t ((later, same, gp, cp), h) =
    let t' : Tracks (window c.policy) past s log = rw same t in
    elim (claim_cases s c past log t' later gp cp) [
      | inl (a, e) ↦
          rw (a, e)
            (ap (◌∷◌ true) (
              decisions_lem span c.now (admitted s c) (log ++ c ∷ []) rest
                (rw (← same) (Tracks-admitted s c past log t' later)) h))
      | inr (a, w) ↦
          rw (a, w.1)
            (ap (◌∷◌ false) (
              decisions_lem span c.now (refused s c) log rest
                (rw (← same) (Tracks-refused s c past log t' later)) h))
    ]

Tracks-empty : (span : ℕ) → Tracks span 0 empty []
unfolding lookup
Tracks-empty span = record {
  globals = λ p u h. refl;
  clients = λ k u h. refl;
  distinct = tt;
  ascending = tt;
  past = tt;
}

-- From an empty limiter, on any calls in the order of the clock whose policies have positive limits
-- and the same window: a call is admitted exactly when fewer than the policy's global limit, and
-- fewer than its limit for this client, of the calls admitted so far lie in the window before it.
-- The pruning of deques and the sweep over idle clients change no decision.
pub decisions-eq_ideal :
    (span : ℕ) (calls : List Call)
    → IsRun span 0 calls
    → decisions empty calls ≡ ideal_decisions [] calls
decisions-eq_ideal span calls h = decisions_lem span 0 empty [] calls (Tracks-empty span) h

-- the calls that the limiter admits, after those of a log
pub admitted_calls : Limiter → Log → List Call → Log
admitted_calls s log [] = log
admitted_calls s log (c ∷ rest) =
    let (wait, s') = claim s c.policy c.client c.now in
    admitted_calls s' (if is_some wait then log else log ++ c ∷ []) rest

-- no more than the limit lie in any one window that ends at `past` or later
abbrev IsWithin : ℕ → ℕ → Log → Type 0
IsWithin span past log =
    (p : RateLimitPolicy) (u : ℕ)
    → past ≤ u
    → 0 < p.global_limit
    → length (recent span u (of_policy p log)) ≤ p.global_limit

recent_mono :
    (span u w : ℕ) (ts : List ℕ) → u ≤ w → length (recent span w ts) ≤ length (recent span u ts)
recent_mono span u w [] h = omega arith
recent_mono span u w (t ∷ ts) h = ground (arith, recent_mono span u w ts)

recent-append_le :
    (span u t : ℕ) (ts : List ℕ)
    → length (recent span u (ts ++ t ∷ [])) ≤ length (recent span u ts) + 1
recent-append_le span u t [] = ground arith
recent-append_le span u t (v ∷ ts) = ground (arith, recent-append_le span u t ts)

admits-below :
    (log : Log) (c : Call)
    → admits log c ≡ true
    → length (recent (window c.policy) c.now (of_policy c.policy log)) < c.policy.global_limit
unfolding admits
admits-below log c h = ground arith

IsWithin-append :
    (past : ℕ) (log : Log) (c : Call)
    → past ≤ c.now
    → admits log c ≡ true
    → IsWithin (window c.policy) past log
    → IsWithin (window c.policy) c.now (log ++ c ∷ [])
IsWithin-append past log c later a h p u l pos = elim (Bool-cases (policy_eq c.policy p)) [
  | inl e ↦
      let same = (policy_eq_iff c.policy p).0 e in
      rw (times_of-append (λ d. policy_eq d.policy p) log c, e, ← same)
        (omega (
          arith,
          recent-append_le (window c.policy) u c.now (of_policy c.policy log),
          recent_mono (window c.policy) c.now u (of_policy c.policy log) l,
          admits-below log c a,
        ))
  | inr e ↦ rw (times_of-append (λ d. policy_eq d.policy p) log c, e) (h p u (omega arith) pos)
]

admitted_calls-IsWithin :
    (span past : ℕ) (s : Limiter) (log : Log) (calls : List Call)
    → Tracks span past s log
    → IsWithin span past log
    → IsRun span past calls
    → (u : ℕ) → past ≤ u
    → All (λ c. c.now ≤ u) calls
    → IsWithin span u (admitted_calls s log calls)
unfolding admitted_calls
admitted_calls-IsWithin span past s log [] t w h u l k = λ p v m pos. w p v (omega arith) pos
admitted_calls-IsWithin span past s log (c ∷ rest) t w ((later, same, gp, cp), h) u l (k, ks) =
    let t' : Tracks (window c.policy) past s log = rw same t in
    let w' : IsWithin (window c.policy) past log = rw same w in
    elim (claim_cases s c past log t' later gp cp) [
      | inl (a, e) ↦ rw e (
          admitted_calls-IsWithin span c.now (admitted s c) (log ++ c ∷ []) rest
            (rw (← same) (Tracks-admitted s c past log t' later))
            (rw (← same) (IsWithin-append past log c later a w')) h u k ks)
      | inr (a, v) ↦ rw (v.1) (
          admitted_calls-IsWithin span c.now (refused s c) log rest
            (rw (← same) (Tracks-refused s c past log t' later))
            (λ p x m pos. w p x (omega arith) pos) h u k ks)
    ]

-- On calls of a new limiter in the order of the clock, all under one window length and positive
-- limits, and at any time from the last call on: of the calls that the limiter admitted for a policy
-- with a positive global limit, no more than that limit lie in the window that ends there.
pub admitted_calls-le-limit :
    (span u : ℕ) (calls : List Call) (p : RateLimitPolicy)
    → IsRun span 0 calls
    → All (λ c. c.now ≤ u) calls
    → 0 < p.global_limit
    → length (recent span u (of_policy p (admitted_calls empty [] calls))) ≤ p.global_limit
admitted_calls-le-limit span u calls p h k pos =
    admitted_calls-IsWithin span 0 empty [] calls (Tracks-empty span) (λ q v m l. omega arith) h u
      (omega arith) k p u (omega arith) pos
