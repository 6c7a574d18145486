-- ===== src/Events/Rules/Grounds.antt =====
-- What a candidate of a rule rests on: the checks of its constructor, its time and its records.
use mathlib.Core.List.{Mem, mem-cons_self, mem-cons_of_mem}
use mathlib.Core.Bool.{false≢true}
use hz.Prelude.{
  ◌>>=◌, ◌⊎◌, if◌then◌else◌, ℕ, ◌≤◌, ◌≡◌, refl, ap, sym, ◌∙◌, String, Bool, true, false, some, List,
  [], ◌∷◌, any, leb, not, length, All, Result, ok, err, arith, Bool-cases, inl, inr,
}
use hz.Prelude.Dicts.{Dict}
use hz.Events.Models.{Float, EvidenceFact, EventCandidate, CandidateError, build_candidate}
use hz.Events.Rules.{float_lt, leader_from, emit}

-- The facts of `c` stand at its time `t` and cite the records `ids`, of which there is one at least;
-- it claims no reported cause; and its constructor accepts it.
pub record IsGrounded (t : ℕ) (ids : List String) (c : EventCandidate) : Type 0 where
  pub timed : c.occurred_at ≡ t
  pub no_cause : c.cause_reported ≡ false
  pub cited :
      All (λ f. (f.observed_at ≡ t) × (f.source_record_ids ≡ ids) × (1 ≤ length ids)) c.facts
  pub accepted : build_candidate c ≡ ok c

-- `entry` is in the mapping, and no entry has a larger value.
unfoldable pub IsLeader : String × Float → Dict String Float → Type 0
IsLeader entry generation =
    Mem entry generation × All (λ e. float_lt entry.1 e.1 ≡ false) generation

pub build_candidate_same : (c d : EventCandidate) → build_candidate c ≡ ok d → c ≡ d
unfolding build_candidate
build_candidate_same c d h = ground arith

build_candidate-cites :
    (c : EventCandidate)
    → build_candidate c ≡ ok c
    → any (λ f. not (leb 1 (length f.source_record_ids))) c.facts ≡ false
unfolding build_candidate
build_candidate-cites c h = ground arith

-- Facts that the constructor accepts cite a record each.
All-cites :
    (t : ℕ) (ids : List String) (facts : List EvidenceFact)
    → any (λ f. not (leb 1 (length f.source_record_ids))) facts ≡ false
    → All (λ f. (f.observed_at ≡ t) × (f.source_record_ids ≡ ids)) facts
    → All (λ f. (f.observed_at ≡ t) × (f.source_record_ids ≡ ids) × (1 ≤ length ids)) facts
All-cites t ids [] h k = tt
All-cites t ids (f ∷ facts) h (here, later) =
    ((here.0, here.1, ground arith), All-cites t ids facts (ground arith) later)

pub accepted-IsGrounded :
    (t : ℕ) (ids : List String) (c : EventCandidate)
    → c.occurred_at ≡ t
    → c.cause_reported ≡ false
    → All (λ f. (f.observed_at ≡ t) × (f.source_record_ids ≡ ids)) c.facts
    → build_candidate c ≡ ok c
    → IsGrounded t ids c
accepted-IsGrounded t ids c timed no_cause cited accepted = record {
  timed = timed;
  no_cause = no_cause;
  cited = All-cites t ids c.facts (build_candidate-cites c accepted) cited;
  accepted = accepted;
}

returned :
    (built : Result CandidateError EventCandidate) (d : EventCandidate)
    → (do candidate ← built; ok (some candidate)) ≡ ok (some d)
    → built ≡ ok d
returned (ok v) d h = ground arith
returned (err x) d h = ground arith

pub emit_inv : (c d : EventCandidate) → emit c ≡ ok (some d) → (c ≡ d) × (build_candidate c ≡ ok c)
unfolding emit
emit_inv c d h =
    let built = returned (build_candidate c) d h in
    let same = build_candidate_same c d built in (same, built ∙ ap ok (sym same))

float_lt_trans : (a b c : Float) → float_lt a b ≡ true → float_lt b c ≡ true → float_lt a c ≡ true
float_lt_trans a b c h k = ground arith

-- The leader is the best entry so far or a larger one that comes later, and none that comes later is
-- larger.
Leads : String × Float → String × Float → Dict String Float → Type 0
Leads leader best rest =
    ((leader ≡ best) ⊎ ((float_lt best.1 leader.1 ≡ true) × Mem leader rest))
    × All (λ e. float_lt leader.1 e.1 ≡ false) rest

float_lt_irreflexive : (a : Float) → float_lt a a ≡ false
float_lt_irreflexive a = ground arith

-- What is larger than the best so far is not below anything that the best is not below.
not_below :
    (best leader e : Float)
    → float_lt best leader ≡ true
    → float_lt best e ≡ false
    → float_lt leader e ≡ false
not_below best leader e h k = elim (Bool-cases (float_lt leader e)) [
  | inl lower ↦ absurd (false≢true (sym k ∙ float_lt_trans best leader e h lower))
  | inr stays ↦ stays
]

Leads-up :
    (leader best e : String × Float) (rest : Dict String Float)
    → float_lt best.1 e.1 ≡ true
    → Leads leader e rest
    → Leads leader best (e ∷ rest)
unfolding Leads
Leads-up leader best e rest h (place, others) = elim place [
  | inl same ↦ (
    inr (ap (λ x. float_lt best.1 x.1) same ∙ h, rw same mem-cons_self),
    (ap (λ x. float_lt x.1 e.1) same ∙ float_lt_irreflexive e.1, others),
  )
  | inr (above, later) ↦ (
    inr (float_lt_trans best.1 e.1 leader.1 h above, mem-cons_of_mem e later),
    (not_below e.1 leader.1 e.1 above (float_lt_irreflexive e.1), others),
  )
]

Leads-stay :
    (leader best e : String × Float) (rest : Dict String Float)
    → float_lt best.1 e.1 ≡ false
    → Leads leader best rest
    → Leads leader best (e ∷ rest)
unfolding Leads
Leads-stay leader best e rest h (place, others) = elim place [
  | inl same ↦ (inl same, (ap (λ x. float_lt x.1 e.1) same ∙ h, others))
  | inr (above, later) ↦
      (inr (above, mem-cons_of_mem e later), (not_below best.1 leader.1 e.1 above h, others))
]

leader_from-Leads :
    (best : String × Float) (rest : Dict String Float) → Leads (leader_from best rest) best rest
unfolding leader_from Leads
leader_from-Leads best [] = (inl refl, tt)
leader_from-Leads best (e ∷ rest) =
    step (float_lt best.1 e.1) refl (leader_from-Leads e rest) (leader_from-Leads best rest)
  where
    step :
        (up : Bool)
        → float_lt best.1 e.1 ≡ up
        → Leads (leader_from e rest) e rest
        → Leads (leader_from best rest) best rest
        → Leads (leader_from (if up then e else best) rest) best (e ∷ rest)
    step true h later stay = Leads-up (leader_from e rest) best e rest h later
    step false h later stay = Leads-stay (leader_from best rest) best e rest h stay

pub leader_from-IsLeader :
    (entry : String × Float) (rest : Dict String Float)
    → IsLeader (leader_from entry rest) (entry ∷ rest)
unfolding IsLeader Leads
leader_from-IsLeader entry rest =
    let (place, others) = leader_from-Leads entry rest in
    elim place [
      | inl same ↦ (
        rw same mem-cons_self,
        (ap (λ x. float_lt x.1 entry.1) same ∙ float_lt_irreflexive entry.1, others),
      )
      | inr (above, later) ↦ (
        mem-cons_of_mem entry later,
        (
          not_below entry.1 (leader_from entry rest).1 entry.1 above (float_lt_irreflexive entry.1),
          others,
        ),
      )
    ]
