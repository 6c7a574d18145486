-- ===== src/RateLimit/Tests.antt =====
-- Concrete runs of the limiter of app/rate_limit.py, and the theorems at them.
use hz.Prelude.{
  ℕ, ◌≤◌, ◌+◌, ◌*◌, ◌≡◌, refl, true, false, none, some, List, [], ◌∷◌, ok, arith, length,
}
use hz.Prelude.Dicts.{lookup, insert, filter_map_values}
use hz.RateLimit.{
  RateLimitPolicy, Limiter, Scope, empty, text_eq, policy_eq, key_eq, discard_before, claim, second,
  default_policies, covers, find_policy, build_policy,
}
use hz.RateLimit.Window.{recent}
use hz.RateLimit.Refinement.{Call, decisions, ideal_decisions, admits, of_policy}
use hz.RateLimit.Refinement.Runs.{
  IsRun, decisions-eq_ideal, admitted_calls, admitted_calls-le-limit,
}
use hz.RateLimit.Retry.{claim-after_wait}
use hz.RateLimit.Bounds.{IsBounded, IsBounded-empty, IsBounded-HasRoom, claim-IsBounded}
use hz.RateLimit.Middleware.{
  client_key, header, strip, latin1, length-client_key-le, call, respond, forwarded,
}

program : Unit {0}
unfolding covers text_eq policy_eq key_eq discard_before claim lookup insert filter_map_values
    find_policy build_policy client_key header strip call respond decisions ideal_decisions admits
program = tt

abbrev policy : RateLimitPolicy
policy = record {
  method = "GET";
  path_prefix = "/v1/export";
  per_client = 1;
  global_limit = 2;
  window_seconds = 60;
}

abbrev alice : List ℕ
alice = 97 ∷ []

abbrev bob : List ℕ
bob = 98 ∷ []

abbrev call_at : List ℕ → ℕ → Call
call_at client t = record { policy = policy; client = client; now = t * second }

abbrev calls : List Call
calls =
    call_at alice 100
    ∷ call_at alice 110
    ∷ call_at bob 120
    ∷ call_at bob 165
    ∷ call_at alice 170
    ∷ []

calls_decided : decisions empty calls ≡ true ∷ false ∷ true ∷ false ∷ true ∷ []
unfolding program
calls_decided = refl

policy_is_positive : build_policy policy ≡ ok policy
unfolding program
policy_is_positive = refl

calls-IsRun : IsRun (60 * second) 0 calls
calls-IsRun = omega arith

decisions-eq_ideal_example : decisions empty calls ≡ ideal_decisions [] calls
decisions-eq_ideal_example = decisions-eq_ideal (60 * second) calls calls-IsRun

admitted_calls-le-limit_example :
    length (recent (60 * second) (170 * second) (of_policy policy (admitted_calls empty [] calls)))
    ≤ 2
admitted_calls-le-limit_example =
    admitted_calls-le-limit (60 * second) (170 * second) calls policy calls-IsRun (omega arith)
      (omega arith)

abbrev after_alice : Limiter
after_alice = (claim empty policy alice (100 * second)).1

after_alice-IsBounded : IsBounded after_alice
after_alice-IsBounded =
    claim-IsBounded empty (call_at alice 100) IsBounded-empty (omega arith) (omega arith)

claim-IsBounded_example : IsBounded (claim empty policy alice (100 * second)).1
claim-IsBounded_example =
    claim-IsBounded empty (call_at alice 100) IsBounded-empty (omega arith) (omega arith)

alice_again :
    claim after_alice policy alice (110 * second)
    ≡ (some 50, (claim after_alice policy alice (110 * second)).1)
unfolding program
alice_again = refl

claim-after_wait_example :
    (claim
      (claim after_alice policy alice (110 * second)).1
      policy
      alice
      (110 * second + 50 * second)).0
    ≡ none
claim-after_wait_example =
    claim-after_wait after_alice (call_at alice 110)
      (IsBounded-HasRoom after_alice (call_at alice 110) after_alice-IsBounded) (omega arith)
      (omega arith) 50 (claim after_alice policy alice (110 * second)).1 alice_again

abbrev proxied : Scope
proxied = record {
  kind = some "http";
  method = some "GET";
  path = some "/v1/export";
  headers = record { name = latin1 "X-Real-IP"; value = latin1 " 10.0.0.1 " } ∷ [];
  client = none;
}

abbrev spoofed : Scope
spoofed = record proxied {
  headers =
      record { name = latin1 "X-Forwarded-For"; value = latin1 "1.2.3.4" }
      ∷ record { name = latin1 "X-Real-IP"; value = latin1 " 10.0.0.1 " }
      ∷ [];
  client = some (latin1 "9.9.9.9");
}

proxied_key : client_key proxied ≡ latin1 "10.0.0.1"
unfolding program
proxied_key = refl

length-client_key-le_example : length (client_key spoofed) ≤ 128
length-client_key-le_example = length-client_key-le spoofed

first_export : (call default_policies empty proxied 0).0 ≡ forwarded
unfolding program
first_export = refl
