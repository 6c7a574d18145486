-- ===== src/RateLimit.antt =====
-- app/rate_limit.py: burst protection for expensive endpoints.
-- The clock's reading is a number of nanoseconds. Bytes and characters of a latin-1 text are their
-- codes. The lock makes `_claim` one step, and `self.app` is where a request that passes goes.
pub mod Keys
pub mod Window
pub mod Refinement
pub mod Retry
pub mod Bounds
pub mod Middleware
mod Tests
use text.Mathlib.Text.{starts_with}
use Prim.Native.String.{len, slice}
use hz.Prelude.{
  ℕ, suc, ◌+◌, ◌-◌, ◌*◌, ◌/◌, max, String, Bool, true, false, ◌&&◌, ◌||◌, not, Option, none, some,
  List, [], ◌∷◌, ◌++◌, ltb, leb, ◌==◌, str_eq, length, if◌then◌else◌, Result, ok, err, raise_if,
  ◌>>=◌, ◌>>◌,
}
use hz.Prelude.Int.{ℤ, pos, sub_ℕ, leb_ℤ}
use hz.Prelude.Dicts.{Dict, lookup, insert, filter_map_values}

-- Latin-1 characters, by their codes.
abbrev pub Text : Type 0
Text = List ℕ

pub text_eq : Text → Text → Bool
text_eq [] [] = true
text_eq (c ∷ s) (d ∷ t) = c == d && text_eq s t
text_eq _ _ = false

pub record RateLimitPolicy : Type 0 where
  pub method : String
  pub path_prefix : String
  pub per_client : ℕ
  pub global_limit : ℕ
  pub window_seconds : ℕ

pub data PolicyError : Type 0 where
  not_positive : PolicyError

-- `RateLimitPolicy(…)` with its `__post_init__`.
pub build_policy : RateLimitPolicy → Result PolicyError RateLimitPolicy
build_policy p = do
  raise_if (leb p.per_client 0 || leb p.global_limit 0 || leb p.window_seconds 0) not_positive
  ok p

-- `==` of frozen dataclasses.
pub policy_eq : RateLimitPolicy → RateLimitPolicy → Bool
policy_eq p q =
    str_eq p.method q.method
    && str_eq p.path_prefix q.path_prefix
    && p.per_client == q.per_client
    && p.global_limit == q.global_limit
    && p.window_seconds == q.window_seconds

abbrev policy : String → String → ℕ → ℕ → RateLimitPolicy
policy method prefix per_client global_limit = record {
  method = method;
  path_prefix = prefix;
  per_client = per_client;
  global_limit = global_limit;
  window_seconds = 60;
}

abbrev pub default_policies : List RateLimitPolicy
default_policies =
    policy "POST" "/v1/ask" 6 30
    ∷ policy "GET" "/v1/events/" 12 60
    ∷ policy "GET" "/v1/regions/" 30 120
    ∷ policy "GET" "/v1/grid/timeline" 60 300
    ∷ policy "GET" "/v1/export" 6 30
    ∷ policy "GET" "/v1/briefing/today" 30 120
    ∷ policy "GET" "/v1/sources/status" 30 120
    ∷ policy "GET" "/v1/forecasts/verification" 12 60
    ∷ policy "GET" "/v1/game/" 12 60
    ∷ []

pub record Header : Type 0 where
  pub name : Text
  pub value : Text

-- The parts of an ASGI scope that the middleware reads. A key that is missing is `none`.
pub record Scope : Type 0 where
  pub kind : Option String
  pub method : Option String
  pub path : Option String
  pub headers : List Header
  pub client : Option Text

-- `path.endswith(suffix)`
ends_with : String → String → Bool
ends_with s t = leb (len t) (len s) && str_eq (slice s (len s - len t) (len s)) t

or_empty : Option String → String
or_empty none = ""
or_empty (some s) = s

-- The test of the loop in `_policy`, with the two `continue`s.
unfoldable pub covers : String → String → RateLimitPolicy → Bool
unfolding ends_with
covers method path p =
    str_eq method p.method
    && starts_with path p.path_prefix
    && not (str_eq p.path_prefix "/v1/events/" && not (ends_with path "/explanation"))
    && not (str_eq p.path_prefix "/v1/game/" && not (ends_with path "/resolution"))

first_covering : String → String → List RateLimitPolicy → Option RateLimitPolicy
first_covering method path [] = none
first_covering method path (p ∷ rest) =
    if covers method path p then some p else first_covering method path rest

is_http : Option String → Bool
is_http none = false
is_http (some s) = str_eq s "http"

pub find_policy : List RateLimitPolicy → Scope → Option RateLimitPolicy
unfolding first_covering is_http or_empty
find_policy policies scope =
    if is_http scope.kind
    then first_covering (or_empty scope.method) (or_empty scope.path) policies
    else none

-- `self._clients` is keyed by policy and client.
abbrev pub ClientKey : Type 0
ClientKey = RateLimitPolicy × Text

pub key_eq : ClientKey → ClientKey → Bool
key_eq (p, c) (q, d) = policy_eq p q && text_eq c d

pub record Limiter : Type 0 where
  pub globals : Dict RateLimitPolicy (List ℕ)
  pub clients : Dict ClientKey (List ℕ)

abbrev pub empty : Limiter
empty = record { globals = []; clients = [] }

-- `_discard_before`: from the left, while the first value is at most the cutoff.
pub discard_before : ℤ → List ℕ → List ℕ
discard_before cutoff [] = []
discard_before cutoff (v ∷ vs) =
    let rest = discard_before cutoff vs in if leb_ℤ (pos v) cutoff then rest else v ∷ vs

abbrev pub second : ℕ
second = 1000000000

abbrev pub window : RateLimitPolicy → ℕ
window p = p.window_seconds * second

abbrev pub cutoff_at : RateLimitPolicy → ℕ → ℤ
cutoff_at p now = sub_ℕ now (window p)

-- `defaultdict(deque)[key]`
abbrev pub or_nil : Option (List ℕ) → List ℕ
or_nil none = []
or_nil (some calls) = calls

abbrev pub non_nil : List ℕ → Option (List ℕ)
non_nil [] = none
non_nil (v ∷ vs) = some (v ∷ vs)

-- The body of the sweep: what is left of one deque, `none` where its key is deleted.
left_over : ℤ → List ℕ → Option (List ℕ)
left_over cutoff calls = non_nil (discard_before cutoff calls)

pub sweep : ℤ → Dict ClientKey (List ℕ) → Dict ClientKey (List ℕ)
sweep cutoff clients =
    if ltb 1024 (length clients) then filter_map_values (left_over cutoff) clients else clients

-- The first value of a full bucket, plus the window. A limit is positive, so no empty bucket is full.
pub expiry : ℕ → ℕ → List ℕ → List ℕ
expiry limit span [] = []
expiry limit span (v ∷ vs) = if leb limit (length (v ∷ vs)) then (v + span) ∷ [] else []

-- `max(blocking_expirations)`
pub maximum : ℕ → List ℕ → ℕ
maximum m [] = m
maximum m (v ∷ vs) = maximum (max m v) vs

-- `max(1, ceil(retry_at - now))`, in seconds. Where `retry_at < now` both maxima give 1.
pub retry_seconds : ℕ → ℕ → ℕ
retry_seconds retry_at now = max 1 ((retry_at - now + (second - 1)) / second)

-- What `_claim` answers, and the state that it leaves.
pub answer : Limiter → RateLimitPolicy → Text → ℕ → List ℕ → List ℕ → List ℕ → Option ℕ × Limiter
unfolding maximum retry_seconds
answer s p client now global_calls client_calls [] = (
  none,
  record {
    globals = insert policy_eq p (global_calls ++ now ∷ []) s.globals;
    clients = insert key_eq (p, client) (client_calls ++ now ∷ []) s.clients;
  },
)
answer s p client now global_calls client_calls (e ∷ blocking) = (
  some (retry_seconds (maximum e blocking) now),
  record {
    globals = insert policy_eq p global_calls s.globals;
    clients = insert key_eq (p, client) client_calls s.clients;
  },
)

-- `_claim` at the clock's reading `now`: `none` where the call is admitted, else the seconds to wait.
-- A deque that is looked up is created, and what is dropped from it is dropped in the dictionary.
pub claim : Limiter → RateLimitPolicy → Text → ℕ → Option ℕ × Limiter
unfolding answer sweep left_over expiry
claim s p client now =
    let cutoff = cutoff_at p now in
    let clients = sweep cutoff s.clients in
    let global_calls = discard_before cutoff (or_nil (lookup policy_eq p s.globals)) in
    let client_calls = discard_before cutoff (or_nil (lookup key_eq (p, client) clients)) in
    let blocking =
      expiry p.global_limit (window p) global_calls
      ++ expiry p.per_client (window p) client_calls in
    answer (record s { clients = clients }) p client now global_calls client_calls blocking
