-- ===== src/RateLimit/Refinement/Steps.antt =====
-- One call: the limiter's decision is the specification's, and it goes on tracking the log.
use hz.Prelude.{
  ℕ, ◌+◌, ◌≤◌, ◌<◌, ◌≡◌, refl, ◌∙◌, ◌↔◌, ◌⊎◌, Bool, true, false, List, [], ◌∷◌, ◌++◌, none, some,
  arith, leb, ltb, if◌then◌else◌, length, All, Bool-cases, inl, inr, map,
}
use hz.Prelude.Int.{sub_ℕ}
use hz.Prelude.Dicts.{Dict, lookup, insert, lookup-insert, insert-Distinct}
use hz.RateLimit.{
  RateLimitPolicy, ClientKey, Limiter, policy_eq, key_eq, window, or_nil, sweep, expiry, answer,
  claim, retry_seconds, maximum,
}
use hz.RateLimit.Keys.{policy_eq_iff, key_eq_iff}
use hz.RateLimit.Window.{
  dropped, discard_before-dropped, dropped-dropped, dropped-append_congr, recent, Ascending,
  dropped-recent,
}
use hz.RateLimit.Refinement.{
  Call, Log, times_of, of_policy, of_client, admits, Tracks, global_calls, dropped-sweep,
  sweep-Distinct,
}

pub times_of-append :
    (test : Call → Bool) (log : Log) (c : Call)
    → times_of test (log ++ c ∷ [])
      ≡ (if test c then times_of test log ++ c.now ∷ [] else times_of test log)
times_of-append test [] c = ground arith
times_of-append test (d ∷ log) c = ground (arith, times_of-append test log c)

All-times_of :
    (P : ℕ → Type 0) (test : Call → Bool) (log : Log)
    → All P (map (λ c. c.now) log)
    → All P (times_of test log)
All-times_of P test [] h = tt
All-times_of P test (c ∷ log) h = elim (Bool-cases (test c)) [
  | inl e ↦ rw e (h.0, All-times_of P test log h.1)
  | inr e ↦ rw e (All-times_of P test log h.1)
]

Ascending-times_of :
    (test : Call → Bool) (log : Log)
    → Ascending (map (λ c. c.now) log)
    → Ascending (times_of test log)
Ascending-times_of test [] h = tt
Ascending-times_of test (c ∷ log) h = elim (Bool-cases (test c)) [
  | inl e ↦ rw e (All-times_of (λ w. c.now ≤ w) test log h.0, Ascending-times_of test log h.1)
  | inr e ↦ rw e (Ascending-times_of test log h.1)
]

-- A dictionary of deques that agrees with a function, as far as it can matter at or after `now`.
module _ {K : Type 0} (eq : K → K → Bool) (eq_iff : (a b : K) → (eq a b ≡ true) ↔ (a ≡ b))
    (span now : ℕ) (d : Dict K (List ℕ)) (times : K → List ℕ)
    (agrees : (k : K) (u : ℕ)
      → now ≤ u
      → dropped span u (or_nil (lookup eq k d)) ≡ dropped span u (times k))
    (k₀ : K) where
  agrees-insert :
      (k : K) (u : ℕ)
      → now ≤ u
      → dropped span u
          (or_nil (lookup eq k (insert eq k₀ (dropped span now (or_nil (lookup eq k₀ d))) d)))
        ≡ dropped span u (times k)
  agrees-insert k u h = elim (Bool-cases (eq k₀ k)) [
    | inl e ↦
        rw (lookup-insert eq eq_iff k₀ k (dropped span now (or_nil (lookup eq k₀ d))) d, e)
          (rw (← (eq_iff k₀ k).0 e) (dropped-dropped span now u _ h ∙ agrees k₀ u h))
    | inr e ↦
        rw (lookup-insert eq eq_iff k₀ k (dropped span now (or_nil (lookup eq k₀ d))) d, e)
          (agrees k u h)
  ]

  agrees-push :
      (k : K) (u : ℕ)
      → now ≤ u
      → dropped span u (
          or_nil
            (lookup eq k (insert eq k₀ (dropped span now (or_nil (lookup eq k₀ d)) ++ now ∷ []) d)))
        ≡ dropped span u (if eq k₀ k then times k ++ now ∷ [] else times k)
  agrees-push k u h = elim (Bool-cases (eq k₀ k)) [
    | inl e ↦
        rw
          (
            lookup-insert eq eq_iff k₀ k (dropped span now (or_nil (lookup eq k₀ d)) ++ now ∷ []) d,
            e,
          )
          (rw (← (eq_iff k₀ k).0 e)
            (dropped-append_congr span u now _ _ (dropped-dropped span now u _ h ∙ agrees k₀ u h)))
    | inr e ↦
        rw
          (
            lookup-insert eq eq_iff k₀ k (dropped span now (or_nil (lookup eq k₀ d)) ++ now ∷ []) d,
            e,
          )
          (agrees k u h)
  ]

pub expiry-cases :
    (limit span : ℕ) (vs : List ℕ)
    → 0 < limit
    → ((expiry limit span vs ≡ []) × (ltb (length vs) limit ≡ true))
      ⊎ ((e : ℕ) × (expiry limit span vs ≡ e ∷ []) × (ltb (length vs) limit ≡ false))
unfolding expiry
expiry-cases limit span [] h = inl (refl, ground arith)
expiry-cases limit span (v ∷ vs) h = elim (Bool-cases (leb limit (length (v ∷ vs)))) [
  | inl e ↦ inr (v + span, rw e, ground arith)
  | inr e ↦ inl (rw e, ground arith)
]

module _ (s : Limiter) (c : Call) where
  abbrev pub span : ℕ
  span = window c.policy

  abbrev pub swept : Dict ClientKey (List ℕ)
  swept = sweep (sub_ℕ c.now span) s.clients

  abbrev pub key : ClientKey
  key = (c.policy, c.client)

  abbrev pub global_left : List ℕ
  global_left = dropped span c.now (global_calls s c.policy)

  abbrev pub client_left : List ℕ
  client_left = dropped span c.now (or_nil (lookup key_eq key swept))

  abbrev pub blocking : List ℕ
  blocking =
      expiry c.policy.global_limit span global_left ++ expiry c.policy.per_client span client_left

  pub claim-answer :
      claim s c.policy c.client c.now
      ≡ answer
          (record s { clients = swept })
          c.policy
          c.client
          c.now
          global_left
          client_left
          blocking
  unfolding claim
  claim-answer = rw (
    discard_before-dropped span c.now (global_calls s c.policy),
    discard_before-dropped span c.now (or_nil (lookup key_eq key swept)),
  )

  abbrev pub admitted : Limiter
  admitted = record {
    globals = insert policy_eq c.policy (global_left ++ c.now ∷ []) s.globals;
    clients = insert key_eq key (client_left ++ c.now ∷ []) swept;
  }

  abbrev pub refused : Limiter
  refused = record {
    globals = insert policy_eq c.policy global_left s.globals;
    clients = insert key_eq key client_left swept;
  }

  module _ (past : ℕ) (log : Log) (t : Tracks span past s log) (later : past ≤ c.now)
      (global_pos : 0 < c.policy.global_limit) (client_pos : 0 < c.policy.per_client) where
    global_left-recent : global_left ≡ recent span c.now (of_policy c.policy log)
    global_left-recent =
        t.globals c.policy c.now later
        ∙ dropped-recent span c.now _ (Ascending-times_of _ log t.ascending)

    client_left-recent : client_left ≡ recent span c.now (of_client key log)
    client_left-recent =
        dropped-sweep span c.now c.now key s.clients (omega arith) t.distinct
        ∙ t.clients key c.now later
        ∙ dropped-recent span c.now _ (Ascending-times_of _ log t.ascending)

    pub claim_cases :
        ((admits log c ≡ true) × (claim s c.policy c.client c.now ≡ (none, admitted)))
        ⊎ ((admits log c ≡ false)
            × ((w : ℕ) × (claim s c.policy c.client c.now ≡ (some w, refused))))
    unfolding admits answer
    claim_cases = elim (expiry-cases c.policy.global_limit span global_left global_pos) [
      | inl (g, gl) ↦ elim (expiry-cases c.policy.per_client span client_left client_pos) [
        | inl (k, kl) ↦
            inl (rw (← global_left-recent, ← client_left-recent, gl) kl, claim-answer ∙ rw (g, k))
        | inr (e, k, kl) ↦ inr (
          rw (← global_left-recent, ← client_left-recent, gl) kl,
          (retry_seconds (maximum e []) c.now, claim-answer ∙ rw (g, k)),
        )
      ]
      | inr (e, g, gl) ↦ inr (
        rw (← global_left-recent, gl),
        (
          retry_seconds (maximum e (expiry c.policy.per_client span client_left)) c.now,
          claim-answer ∙ rw g,
        ),
      )
    ]

All-past : (m n : ℕ) (log : Log) → m ≤ n → All (λ c. c.now ≤ m) log → All (λ c. c.now ≤ n) log
All-past m n [] h k = tt
All-past m n (c ∷ log) h k = (omega (arith, k.0), All-past m n log h k.1)

All-snoc {κ} :
    {A : Type 0} (P : A → Type κ) (x : A) (xs : List A) → All P xs → P x → All P (xs ++ x ∷ [])
All-snoc P x [] h p = (p, tt)
All-snoc P x (y ∷ xs) h p = (h.0, All-snoc P x xs h.1 p)

All-times-snoc :
    (v : ℕ) (log : Log) (c : Call)
    → All (λ w. v ≤ w) (map (λ d. d.now) log)
    → v ≤ c.now
    → All (λ w. v ≤ w) (map (λ d. d.now) (log ++ c ∷ []))
All-times-snoc v [] c h p = (p, tt)
All-times-snoc v (d ∷ log) c h p = (h.0, All-times-snoc v log c h.1 p)

Ascending-snoc :
    (log : Log) (c : Call)
    → Ascending (map (λ d. d.now) log)
    → All (λ d. d.now ≤ c.now) log
    → Ascending (map (λ d. d.now) (log ++ c ∷ []))
Ascending-snoc [] c h p = (tt, tt)
Ascending-snoc (d ∷ log) c h p = (All-times-snoc d.now log c h.0 p.0, Ascending-snoc log c h.1 p.1)

module _ (s : Limiter) (c : Call) (past : ℕ) (log : Log) (t : Tracks (window c.policy) past s log)
    (later : past ≤ c.now) where
  swept_agrees :
      (k : ClientKey) (u : ℕ)
      → c.now ≤ u
      → dropped (window c.policy) u (or_nil (lookup key_eq k (swept s c)))
        ≡ dropped (window c.policy) u (of_client k log)
  swept_agrees k u h =
      dropped-sweep (window c.policy) c.now u k s.clients h t.distinct ∙ t.clients k u (omega arith)

  global_agrees :
      (p : RateLimitPolicy) (u : ℕ)
      → c.now ≤ u
      → dropped (window c.policy) u (or_nil (lookup policy_eq p s.globals))
        ≡ dropped (window c.policy) u (of_policy p log)
  global_agrees p u h = t.globals p u (omega arith)

  pub Tracks-refused : Tracks (window c.policy) c.now (refused s c) log
  Tracks-refused = record {
    globals =
        agrees-insert policy_eq policy_eq_iff (window c.policy) c.now s.globals
          (λ p. of_policy p log) global_agrees c.policy;
    clients =
        agrees-insert key_eq key_eq_iff (window c.policy) c.now (swept s c) (λ k. of_client k log)
          swept_agrees (key s c);
    distinct =
        insert-Distinct key_eq key_eq_iff _ _ _
          (sweep-Distinct (window c.policy) c.now s.clients t.distinct);
    ascending = t.ascending;
    past = All-past past c.now log later t.past;
  }

  pub Tracks-admitted : Tracks (window c.policy) c.now (admitted s c) (log ++ c ∷ [])
  Tracks-admitted = record {
    globals = λ p u h. rw (times_of-append (λ d. policy_eq d.policy p) log c) (
        agrees-push policy_eq policy_eq_iff (window c.policy) c.now s.globals (λ p. of_policy p log)
          global_agrees c.policy p u h);
    clients = λ k u h. rw (times_of-append (λ d. key_eq (d.policy, d.client) k) log c) (
        agrees-push key_eq key_eq_iff (window c.policy) c.now (swept s c) (λ k. of_client k log)
          swept_agrees (key s c) k u h);
    distinct =
        insert-Distinct key_eq key_eq_iff _ _ _
          (sweep-Distinct (window c.policy) c.now s.clients t.distinct);
    ascending = Ascending-snoc log c t.ascending (All-past past c.now log later t.past);
    past = All-snoc (λ d. d.now ≤ c.now) c log (All-past past c.now log later t.past) (omega arith);
  }
