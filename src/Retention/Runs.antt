-- ===== src/Retention/Runs.antt =====
-- The bounds of one run.
use hz.Prelude.{
  ℕ, zero, suc, ◌+◌, ◌*◌, ◌≤◌, ◌<◌, ◌≡◌, ◌↔◌, ◌⊎◌, refl, true, ltb, arith, ok, err, Result,
  Bool-cases, inl, inr, ltb→lt,
}
use hz.Retention.{
  Repository, Progress, RetentionOutcome, RetentionError, batches, delete_checked, after_batch,
  counted, run_at, and_then, outcome, start,
}

mul_le : (a b c : ℕ) → a ≤ b → a * c ≤ b * c
mul_le a b c h = grind arith

module _ {S : Type 0} (repository : Repository S) (cutoff size : ℕ) (positive : 0 < size) where
  count-le-size : (s : S) (n : ℕ) → (delete_checked repository cutoff size s).0 ≡ ok n → n ≤ size
  unfolding delete_checked
  count-le-size s n h = ground arith

  -- before each round all batches so far were full
  abbrev AllFull : Progress → Type 0
  AllFull p = (p.deleted ≡ p.attempts * size) × (1 ≤ p.attempts → p.last ≡ size)

  -- the last batch came up short
  abbrev Short : Progress → Type 0
  Short q = (1 ≤ q.attempts) × (q.last < size) × (q.deleted + size ≡ q.attempts * size + q.last)

  counted-AllFull : (p : Progress) → AllFull p → AllFull (counted p size)
  unfolding counted
  counted-AllFull p full = (grind (arith, full.0), λ h. refl)

  counted-Short : (p : Progress) (n : ℕ) → AllFull p → n < size → Short (counted p n)
  unfolding counted
  counted-Short p n full short = (omega arith, short, omega (arith, full.0))

  abbrev Ends : ℕ → Progress → Progress → Type 0
  Ends left p q =
      ((q.attempts ≡ p.attempts + left) × AllFull q) ⊎ ((q.attempts ≤ p.attempts + left) × Short q)

  -- one round, by what its batch gave
  round_end :
      (left : ℕ) (p q : Progress) (s : S) (r : Result RetentionError ℕ)
      → AllFull p
      → ((n : ℕ) → r ≡ ok n → n ≤ size)
      → ((p' : Progress)
          → AllFull p'
          → (batches repository cutoff size left p' s).0 ≡ ok q
          → Ends left p' q)
      → (after_batch size p r s (λ p'. batches repository cutoff size left p' s)).0 ≡ ok q
      → Ends (suc left) p q
  unfolding after_batch
  round_end left p q s (err e) full fits later h = cc
  round_end left p q s (ok n) full fits later h = elim (Bool-cases (ltb n size)) [
    | inl short ↦
        let e : counted p n ≡ q = ground arith in
        rw (← e) (inr (unfold counted in omega arith, counted-Short p n full (ltb→lt n size short)))
    | inr long ↦
        let e : n ≡ size = ground (arith, fits n refl) in
        next_round (later (counted p n) (rw e (counted-AllFull p full)) (rw long at h))
  ]
    where
      next_round : Ends left (counted p n) q → Ends (suc left) p q
      next_round (inl (made, f)) = inl (unfold counted in omega arith, f)
      next_round (inr (made, f)) = inr (unfold counted in omega arith, f)

  batches_end :
      (left : ℕ) (p q : Progress) (s : S)
      → AllFull p
      → (batches repository cutoff size left p s).0 ≡ ok q
      → Ends left p q
  unfolding batches
  batches_end zero p q s full h = let e : p ≡ q = cc in rw (← e) (inl (omega arith, full))
  batches_end (suc left) p q s full h =
      let (r, s') = delete_checked repository cutoff size s in
      round_end left p q s' r full (count-le-size s) (λ p' f. batches_end left p' q s' f) h

  module _ (max_batches : ℕ) (s : S) (some_batches : 0 < max_batches) where
    Short-below :
        (q : Progress) → q.attempts ≤ max_batches → Short q → q.deleted ≡ max_batches * size → ⊥
    Short-below q made (one, short, deleted) h =
        grind (arith, mul_le q.attempts max_batches size made)

    reported :
        (q : Progress)
        → Ends max_batches start q
        → ((outcome cutoff size max_batches q).batch_attempts ≤ max_batches)
          × ((outcome cutoff size max_batches q).deleted_rows
              ≤ (outcome cutoff size max_batches q).batch_attempts * size)
          × (((outcome cutoff size max_batches q).hit_batch_limit ≡ true)
              ↔ ((outcome cutoff size max_batches q).deleted_rows ≡ max_batches * size))
    unfolding outcome
    reported q (inl (made, full)) = (
      omega arith,
      omega arith,
      (λ h. rw (full.0, made) (omega arith), λ h. ground (arith, full.1 (omega arith))),
    )
    reported q (inr (few, short)) =
        let made : q.attempts ≤ max_batches = omega (arith, few) in
        (
          made,
          omega (arith, short.1, short.2),
          (λ h. absurd (ground (arith, short.1)), λ h. absurd (Short-below q made short h)),
        )

    -- Whatever the repository does, a run that returns has made at most the allowed batches and deleted
    -- at most a full batch in each, and it reports the batch limit exactly when it has deleted as much
    -- as the limits allow at all.
    pub run_at_bounds :
        (o : RetentionOutcome)
        → (run_at repository size max_batches cutoff s).0 ≡ ok o
        → (o.batch_attempts ≤ max_batches)
          × (o.deleted_rows ≤ o.batch_attempts * size)
          × ((o.hit_batch_limit ≡ true) ↔ (o.deleted_rows ≡ max_batches * size))
    unfolding run_at
    run_at_bounds o h = ended (batches repository cutoff size max_batches start s).0 refl h
      where
        ended :
            (r : Result RetentionError Progress)
            → (batches repository cutoff size max_batches start s).0 ≡ r
            → (and_then
                (outcome cutoff size max_batches)
                (r, (batches repository cutoff size max_batches start s).1)).0
              ≡ ok o
            → (o.batch_attempts ≤ max_batches)
              × (o.deleted_rows ≤ o.batch_attempts * size)
              × ((o.hit_batch_limit ≡ true) ↔ (o.deleted_rows ≡ max_batches * size))
        ended (err e) b h = cc
        ended (ok q) b h =
            let e : outcome cutoff size max_batches q ≡ o = cc in
            rw (← e) (
              reported q
                (batches_end max_batches start q s (omega arith, λ k. absurd (omega arith)) b))
