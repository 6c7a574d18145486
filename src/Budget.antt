-- ===== src/Budget.antt =====
-- app/intelligence/budget.py: the daily limit on paid calls.
mod Tests
use hz.Prelude.{
  ℕ, ◌+◌, ◌-◌, ◌/◌, min, ◌≤◌, ◌<◌, ◌≡◌, refl, ◌∙◌, ◌↔◌, ◌⊎◌, inl, inr, Bool, true, false, Option,
  none, some, List, [], ◌∷◌, arith, leb, ltb, ◌==◌, ==_iff, if◌then◌else◌, Result, ok, err,
  Bool-cases, length, filter,
}
use hz.Prelude.Int.{ℤ, pos, negsuc}
use hz.Prelude.Dicts.{Dict, lookup, insert, lookup-insert}

-- A datetime is what its own wall clock shows, in microseconds since year 1 (that of
-- `datetime.now(UTC)` shows UTC), and `.date()` is the day of it.
abbrev pub day_of : ℕ → ℕ
day_of t = t / 86400000000

-- `now or datetime.now(UTC)`: `clock` is what the clock reads.
abbrev pub or_clock : Option ℕ → ℕ → ℕ
or_clock none clock = clock
or_clock (some t) clock = t

pub data BudgetError : Type 0 where
  negative_limit budget_exceeded : BudgetError

pub record DailyCallBudget : Type 0 where
  pub limit : ℕ
  pub calls : Dict ℕ ℕ

-- `DailyCallBudget(limit)`
pub build_budget : ℤ → Result BudgetError DailyCallBudget
build_budget (negsuc n) = err negative_limit
build_budget (pos n) = ok (record { limit = n; calls = [] })

-- `self._calls[day]` of a `defaultdict(int)`, which stores the default it returns
abbrev pub or_zero : Option ℕ → ℕ
or_zero none = 0
or_zero (some n) = n

pub used_on : DailyCallBudget → ℕ → ℕ
used_on b day = or_zero (lookup ◌==◌ day b.calls)

touch : DailyCallBudget → ℕ → DailyCallBudget
unfolding used_on
touch b day = record b { calls = insert ◌==◌ day (used_on b day) b.calls }

-- The call returns nothing or raises; it leaves a state in both cases.
pub claim : DailyCallBudget → Option ℕ → ℕ → Result BudgetError (Unit {0}) × DailyCallBudget
unfolding touch
claim b now clock =
    let day = day_of (or_clock now clock) in
    let b' = touch b day in
    if leb b'.limit (used_on b' day)
    then (err budget_exceeded, b')
    else (ok tt, record b' { calls = insert ◌==◌ day (used_on b' day + 1) b'.calls })

pub used : DailyCallBudget → Option ℕ → ℕ → ℕ × DailyCallBudget
unfolding touch
used b now clock =
    let day = day_of (or_clock now clock) in let b' = touch b day in (used_on b' day, b')

used_on-insert :
    (b : DailyCallBudget) (day d n : ℕ)
    → used_on (record b { calls = insert ◌==◌ day n b.calls }) d
      ≡ (if day == d then n else used_on b d)
unfolding used_on
used_on-insert b day d n = rw (lookup-insert ◌==◌ ==_iff day d n b.calls) (ground arith)

used_on-touch : (b : DailyCallBudget) (day d : ℕ) → used_on (touch b day) d ≡ used_on b d
used_on-touch b day d = unfold touch in rw (used_on-insert b day d (used_on b day)) (ground arith)

used_on-counted :
    (b : DailyCallBudget) (day d : ℕ)
    → used_on
        (record (touch b day) {
          calls = insert ◌==◌ day (used_on (touch b day) day + 1) (touch b day).calls;
        })
        d
      ≡ (if day == d then used_on b d + 1 else used_on b d)
used_on-counted b day d =
    used_on-insert (touch b day) day d (used_on (touch b day) day + 1)
    ∙ rw (used_on-touch b day day, used_on-touch b day d) (ground arith)

module _ (b : DailyCallBudget) (now : Option ℕ) (clock : ℕ) where
  -- A claim succeeds exactly when the day's count is below the limit, and then it alone is counted.
  claim_cases :
      (((claim b now clock).0 ≡ ok tt)
        × (used_on b (day_of (or_clock now clock)) < b.limit)
        × ((d : ℕ)
            → used_on (claim b now clock).1 d
              ≡ (if day_of (or_clock now clock) == d then used_on b d + 1 else used_on b d)))
      ⊎ (((claim b now clock).0 ≡ err budget_exceeded)
          × (b.limit ≤ used_on b (day_of (or_clock now clock)))
          × ((d : ℕ) → used_on (claim b now clock).1 d ≡ used_on b d))
  unfolding claim
  claim_cases =
      let day = day_of (or_clock now clock) in
      elim (Bool-cases (leb b.limit (used_on (touch b day) day))) [
        | inl e ↦
            inr (rw e, ground (arith, used_on-touch b day day), λ d. rw e (used_on-touch b day d))
        | inr e ↦
            inl (rw e, ground (arith, used_on-touch b day day), λ d. rw e (used_on-counted b day d))
      ]

  limit-claim : (claim b now clock).1.limit ≡ b.limit
  unfolding claim touch
  limit-claim = ground arith

abbrev pub count_success : Result BudgetError (Unit {0}) → Bool → ℕ → ℕ
count_success (ok _) on_day n = if on_day then n + 1 else n
count_success (err _) on_day n = n

-- the number of claims on a day that succeed, of claims made one after another
pub granted : ℕ → DailyCallBudget → List (Option ℕ × ℕ) → ℕ
granted day b [] = 0
granted day b ((now, clock) ∷ rest) =
    let (r, b') = claim b now clock in
    let more = granted day b' rest in count_success r (day_of (or_clock now clock) == day) more

abbrev pub requests_on : ℕ → List (Option ℕ × ℕ) → ℕ
requests_on day calls = length (filter (λ c. day_of (or_clock c.0 c.1) == day) calls)

granted_lem :
    (day : ℕ) (b : DailyCallBudget) (calls : List (Option ℕ × ℕ))
    → granted day b calls ≡ min (b.limit - used_on b day) (requests_on day calls)
unfolding granted
granted_lem day b [] = omega arith
granted_lem day b ((now, clock) ∷ rest) = elim (claim_cases b now clock) [
  | inl (r, below, counts) ↦ rw r (
      ground
        (arith, granted_lem day (claim b now clock).1 rest, counts day, limit-claim b now clock))
  | inr (r, full, counts) ↦ rw r (
      ground
        (arith, granted_lem day (claim b now clock).1 rest, counts day, limit-claim b now clock))
]

-- Of any calls made one after another on a new budget, those that succeed on a day are as many as
-- were made on it, up to the limit, and no claim of another day takes any of them away.
pub granted-min :
    (limit day : ℕ) (b : DailyCallBudget) (calls : List (Option ℕ × ℕ))
    → build_budget (pos limit) ≡ ok b
    → granted day b calls ≡ min limit (requests_on day calls)
unfolding build_budget used_on lookup
granted-min limit day b calls h = ground (arith, granted_lem day b calls)
