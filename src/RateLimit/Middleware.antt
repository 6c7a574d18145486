-- ===== src/RateLimit/Middleware.antt =====
-- app/rate_limit.py: `_client_key` and the `__call__` of the middleware.
use Prim.Native.Char.{code}
use Prim.Native.String.{String}
use hz.Prelude.{
  ℕ, ◌≤◌, ◌+◌, ◌≡◌, ◌≢◌, refl, Bool, ◌&&◌, ◌||◌, Option, none, some, List, [], ◌∷◌, arith, leb,
  ◌==◌, length, length-take_bounds, take, if◌then◌else◌,
}
use hz.RateLimit.{Text, text_eq, Header, Scope, Limiter, RateLimitPolicy, find_policy, claim}

abbrev pub latin1 : String → Text
latin1 String.[] = []
latin1 (String.◌∷◌ c s) = code c ∷ latin1 s

-- `bytes.lower()`, which changes ASCII letters alone
to_lower : ℕ → ℕ
to_lower c = if leb b'A' c && leb c b'Z' then c + 32 else c

lower : Text → Text
unfolding to_lower
lower [] = []
lower (c ∷ s) = to_lower c ∷ lower s

-- `str.isspace` on the characters of latin-1
is_space : ℕ → Bool
is_space c = (leb 9 c && leb c 13) || (leb 28 c && leb c 32) || c == 133 || c == 160

strip_start : Text → Text
strip_start [] = []
strip_start (c ∷ s) = let rest = strip_start s in if is_space c then rest else c ∷ s

-- drops a space that nothing follows
end_with : ℕ → Text → Text
end_with c [] = if is_space c then [] else c ∷ []
end_with c (d ∷ s) = c ∷ d ∷ s

strip_end : Text → Text
unfolding end_with
strip_end [] = []
strip_end (c ∷ s) = end_with c (strip_end s)

-- `str.strip()`
unfoldable pub strip : Text → Text
unfolding strip_start strip_end is_space
strip s = strip_end (strip_start s)

-- `value.split(",", 1)[0]`
before_comma : Text → Text
before_comma [] = []
before_comma (c ∷ s) = let rest = before_comma s in if c == b',' then [] else c ∷ rest

-- `next((value for key, value in headers if key.lower() == name), "")`
unfoldable pub header : Text → List Header → Text
unfolding lower
header name [] = []
header name (h ∷ rest) =
    let later = header name rest in if text_eq (lower h.name) name then h.value else later

abbrev pub real_ip : Text
real_ip = latin1 "x-real-ip"

abbrev pub forwarded_for : Text
forwarded_for = latin1 "x-forwarded-for"

abbrev pub key_length : ℕ
key_length = 128

-- `str(client[0])[:128]`, or `"unknown"`
socket_key : Option Text → Text
socket_key none = latin1 "unknown"
socket_key (some address) = take key_length address

-- the part of `_client_key` behind the `x-real-ip` header
fallback_key : Text → Scope → Text
fallback_key [] scope = socket_key scope.client
fallback_key (c ∷ s) scope = take key_length (c ∷ s)

choose_key : Text → Scope → Text
choose_key [] scope = fallback_key (strip (before_comma (header forwarded_for scope.headers))) scope
choose_key (c ∷ s) scope = take key_length (c ∷ s)

unfoldable pub client_key : Scope → Text
unfolding choose_key fallback_key socket_key before_comma
client_key scope = choose_key (strip (header real_ip scope.headers)) scope

-- What the middleware does with a request: hand it to `self.app`, or answer with status 429 and a
-- `retry-after` header.
pub data Outcome : Type 0 where
  forwarded : Outcome
  too_many_requests : ℕ → Outcome

unfoldable pub respond : Option ℕ × Limiter → Outcome × Limiter
respond (none, s) = (forwarded, s)
respond (some retry_after, s) = (too_many_requests retry_after, s)

handle_policy : Option RateLimitPolicy → Limiter → Scope → ℕ → Outcome × Limiter
handle_policy none s scope now = (forwarded, s)
handle_policy (some p) s scope now = respond (claim s p (client_key scope) now)

-- `__call__`: `now` is the clock's reading.
unfoldable pub call : List RateLimitPolicy → Limiter → Scope → ℕ → Outcome × Limiter
unfolding handle_policy
call policies s scope now = handle_policy (find_policy policies scope) s scope now

length-socket_key-le : (client : Option Text) → length (socket_key client) ≤ 128
unfolding socket_key
length-socket_key-le none = omega arith
length-socket_key-le (some address) = (length-take_bounds address key_length).1

length-fallback_key-le : (key : Text) (scope : Scope) → length (fallback_key key scope) ≤ 128
unfolding fallback_key
length-fallback_key-le [] scope = length-socket_key-le scope.client
length-fallback_key-le (c ∷ s) scope = (length-take_bounds (c ∷ s) key_length).1

length-choose_key-le : (key : Text) (scope : Scope) → length (choose_key key scope) ≤ 128
length-choose_key-le [] scope =
    unfold choose_key in
    length-fallback_key-le (strip (before_comma (header forwarded_for scope.headers))) scope
length-choose_key-le (c ∷ s) scope = unfold choose_key in (length-take_bounds (c ∷ s) key_length).1

-- A client key has at most 128 characters, whatever the headers and the socket.
pub length-client_key-le : (scope : Scope) → length (client_key scope) ≤ 128
length-client_key-le scope =
    unfold client_key in length-choose_key-le (strip (header real_ip scope.headers)) scope

-- Where the proxy's `x-real-ip` is not blank, it alone decides the key: the other headers and the
-- socket's address, which a caller may choose, do not.
client_key-real_ip :
    (scope other : Scope)
    → strip (header real_ip scope.headers) ≢ []
    → header real_ip other.headers ≡ header real_ip scope.headers
    → client_key other ≡ client_key scope
unfolding client_key
client_key-real_ip scope other present same =
    rw same (by_first (strip (header real_ip scope.headers)) present)
  where
    by_first : (key : Text) → key ≢ [] → choose_key key other ≡ choose_key key scope
    by_first [] h = absurd (h refl)
    by_first (c ∷ s) h = refl
