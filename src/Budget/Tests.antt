-- ===== src/Budget/Tests.antt =====
-- A budget of two calls a day, and the theorems at it.
use hz.Prelude.{ℕ, ◌≡◌, refl, none, some, List, [], ◌∷◌, Option, ok, min}
use hz.Prelude.Int.{pos}
use hz.Budget.{DailyCallBudget, build_budget, granted, requests_on, granted-min}

abbrev fresh : DailyCallBudget
fresh = record { limit = 2; calls = [] }

fresh_built : build_budget (pos 2) ≡ ok fresh
unfolding build_budget
fresh_built = refl

-- three calls on day 0, by the clock or a given time, and one on day 1
abbrev calls : List (Option ℕ × ℕ)
calls = (none, 10) ∷ (some 20, 99) ∷ (none, 86400000001) ∷ (none, 30) ∷ []

granted-min_example : granted 0 fresh calls ≡ min 2 (requests_on 0 calls)
granted-min_example = granted-min 2 0 fresh calls fresh_built
