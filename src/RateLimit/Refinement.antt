-- ===== src/RateLimit/Refinement.antt =====
-- The limiter against a log of all admitted calls: it decides as if it had forgotten nothing.
pub mod Steps
pub mod Runs
use mathlib.Core.Option
use hz.Prelude.{
  ℕ, suc, ◌+◌, ◌*◌, ◌≤◌, ◌<◌, ◌≡◌, refl, sym, ◌∙◌, Bool, true, false, not, ◌&&◌, List, [], ◌∷◌,
  ◌++◌, Option, none, some, arith, leb, ltb, if◌then◌else◌, length, filter, All, Bool-cases, inl,
  inr, map, is_some, ap,
}
use hz.Prelude.Int.{sub_ℕ}
use hz.Prelude.Dicts.{
  Dict, lookup, insert, lookup-insert, insert-Distinct, lookup-filter_map, filter_map-Distinct,
  filter_map_values, Distinct,
}
use hz.RateLimit.{
  RateLimitPolicy, Text, ClientKey, Limiter, empty, policy_eq, key_eq, discard_before, window,
  second, cutoff_at, or_nil, left_over, sweep, expiry, answer, claim, non_nil,
}
use hz.RateLimit.Keys.{policy_eq_iff, key_eq_iff}
use hz.RateLimit.Window.{
  dropped, discard_before-dropped, dropped-dropped, dropped-append_congr, recent, Ascending,
  dropped-recent,
}

-- A call: its policy, its client and the clock's reading.
pub record Call : Type 0 where
  pub policy : RateLimitPolicy
  pub client : Text
  pub now : ℕ

-- all admitted calls, oldest first
abbrev pub Log : Type 0
Log = List Call

abbrev pub times_of : (Call → Bool) → Log → List ℕ
times_of test log = map (λ c. c.now) (filter test log)

abbrev pub of_policy : RateLimitPolicy → Log → List ℕ
of_policy p = times_of (λ c. policy_eq c.policy p)

abbrev pub of_client : ClientKey → Log → List ℕ
of_client k = times_of (λ c. key_eq (c.policy, c.client) k)

-- The specification: a call is admitted exactly when fewer calls than each limit were admitted in
-- the window that ends with it.
unfoldable pub admits : Log → Call → Bool
admits log c =
    ltb (length (recent (window c.policy) c.now (of_policy c.policy log))) c.policy.global_limit
    && ltb (length (recent (window c.policy) c.now (of_client (c.policy, c.client) log)))
        c.policy.per_client

unfoldable pub ideal_decisions : Log → List Call → List Bool
ideal_decisions log [] = []
ideal_decisions log (c ∷ rest) =
    let admitted = admits log c in
    admitted ∷ ideal_decisions (if admitted then log ++ c ∷ [] else log) rest

-- What the limiter decides on a sequence of calls.
unfoldable pub decisions : Limiter → List Call → List Bool
decisions s [] = []
decisions s (c ∷ rest) =
    let (wait, s') = claim s c.policy c.client c.now in not (is_some wait) ∷ decisions s' rest

abbrev pub global_calls : Limiter → RateLimitPolicy → List ℕ
global_calls s p = or_nil (lookup policy_eq p s.globals)

abbrev pub client_calls : Limiter → ClientKey → List ℕ
client_calls s k = or_nil (lookup key_eq k s.clients)

-- The limiter knows what the log knows, as far as it can matter at or after `now`.
pub record Tracks (span now : ℕ) (s : Limiter) (log : Log) : Type 0 where
  pub globals :
      (p : RateLimitPolicy) (u : ℕ)
      → now ≤ u
      → dropped span u (global_calls s p) ≡ dropped span u (of_policy p log)
  pub clients :
      (k : ClientKey) (u : ℕ)
      → now ≤ u
      → dropped span u (client_calls s k) ≡ dropped span u (of_client k log)
  pub distinct : Distinct key_eq s.clients
  pub ascending : Ascending (map (λ c. c.now) log)
  pub past : All (λ c. c.now ≤ now) log

pub or_nil-non_nil : (vs : List ℕ) → or_nil (non_nil vs) ≡ vs
or_nil-non_nil [] = refl
or_nil-non_nil (v ∷ vs) = refl

dropped-left_over :
    (span now u : ℕ) (o : Option (List ℕ))
    → now ≤ u
    → dropped span u (or_nil (Option.bind o (left_over (sub_ℕ now span))))
      ≡ dropped span u (or_nil o)
unfolding left_over Option.bind
dropped-left_over span now u none h = refl
dropped-left_over span now u (some vs) h =
    rw (or_nil-non_nil (discard_before (sub_ℕ now span) vs), discard_before-dropped span now vs)
      (dropped-dropped span now u vs h)

-- the sweep forgets nothing that can matter
pub dropped-sweep :
    (span now u : ℕ) (k : ClientKey) (d : Dict ClientKey (List ℕ))
    → now ≤ u
    → Distinct key_eq d
    → dropped span u (or_nil (lookup key_eq k (sweep (sub_ℕ now span) d)))
      ≡ dropped span u (or_nil (lookup key_eq k d))
unfolding sweep
dropped-sweep span now u k d h distinct = elim (Bool-cases (ltb 1024 (length d))) [
  | inl e ↦
      rw (e, lookup-filter_map key_eq key_eq_iff (left_over (sub_ℕ now span)) k d distinct)
        (dropped-left_over span now u (lookup key_eq k d) h)
  | inr e ↦ rw e
]

pub sweep-Distinct :
    (span now : ℕ) (d : Dict ClientKey (List ℕ))
    → Distinct key_eq d
    → Distinct key_eq (sweep (sub_ℕ now span) d)
unfolding sweep
sweep-Distinct span now d h = elim (Bool-cases (ltb 1024 (length d))) [
  | inl e ↦ rw e (filter_map-Distinct key_eq key_eq_iff (left_over (sub_ℕ now span)) d h)
  | inr e ↦ rw e h
]
