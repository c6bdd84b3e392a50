-- ===== src/RateLimit/Middleware.antt =====
-- app/interfaces/http/middleware/rate_limit.py: which requests are counted, for whom, and what the
-- client is told.
use fast_api_scaff.Prelude.{
  ℕ, ◌≡◌, refl, Bool, true, false, not, ◌||◌, ◌&&◌, Option, none, some, List, [], ◌∷◌, ◌++◌, any,
  if◌then◌else◌, Text, codes, is_empty, text_eq, strip_prefix, strip_prefix-append, Result, ok, err,
  Action,
}
use fast_api_scaff.RateLimit.{RateLimitDecision, RateLimitError}

-- What the middleware reads of an ASGI scope; a header is its lower-case name, and `client` is the
-- host of the peer.
pub record Scope : Type 0 where
  pub is_http : Bool
  pub path : Text
  pub root_path : Text
  pub method : Text
  pub headers : List Text
  pub client : Option Text

abbrev starts_with : Text → Text → Bool
starts_with prefix text = elim (strip_prefix prefix text) [ none ↦ false | some _ ↦ true ]

abbrev is_segment : Text → Bool
is_segment relative = is_empty relative || starts_with (codes "/") relative

abbrev relative_to : Option Text → Text → Text
relative_to none path = path
relative_to (some relative) path = if is_segment relative then relative else path

abbrev is_api : Text → Bool
is_api path = text_eq path (codes "/api") || starts_with (codes "/api/") path

abbrev is_preflight : Scope → Bool
is_preflight scope =
    text_eq scope.method (codes "OPTIONS")
    && (any (text_eq (codes "origin")) scope.headers
        && any (text_eq (codes "access-control-request-method")) scope.headers)

-- `_should_limit`
unfoldable pub should_limit : Scope → Bool
should_limit scope =
    if not scope.is_http
    then false
    else let path =
        if is_empty scope.root_path
        then scope.path
        else relative_to (strip_prefix scope.root_path scope.path) scope.path in
      if not (is_api path) then false else not (is_preflight scope)

-- A mounted application limits what it would limit at the root: putting a path of whole segments
-- behind the mount path does not change the decision, so no request escapes by the prefix.
pub should_limit-mounted :
    (scope : Scope) (root path : Text)
    → is_segment path ≡ true
    → should_limit (record scope { root_path = root; path = root ++ path })
      ≡ should_limit (record scope { root_path = []; path = path })
unfolding should_limit
should_limit-mounted scope [] path h = refl
should_limit-mounted scope (c ∷ root) path h = rw (strip_prefix-append (c ∷ root) path) (rw h refl)

-- `ipaddress`: reading an address, its IPv4 address where it is a mapped IPv6 one, and its text.
module _ {Address : Type 0} (ip_address : Text → Option Address)
    (ipv4_mapped : Address → Option Address) (compressed : Address → Text) where
  abbrev unknown : Text
  unknown = codes "ip:unknown"

  abbrev identity_of : Option Address → Text
  identity_of none = unknown
  identity_of (some address) =
      codes "ip:"
      ++ compressed (elim (ipv4_mapped address) [ none ↦ address | some mapped ↦ mapped ])

  -- `_client_identity`
  unfoldable pub client_identity : Scope → Text
  client_identity scope = elim scope.client [
    | none ↦ unknown
    | some host ↦ identity_of (ip_address host)
  ]

-- What is sent: the answer of the application, or an error with its status and `Retry-After`.
pub data Reply (R : Type 0) : Type 0 where
  served : R → Reply R
  too_many_requests : ℕ → Reply R
  service_unavailable : Reply R
  runtime_error : Reply R

module _ {S R : Type 0} (app : S → R × S) (identity : Scope → Text) where
  abbrev serve : S → Reply R × S
  serve s = let (response, after) = app s in (served response, after)

  abbrev answer : Bool → Result RateLimitError RateLimitDecision → S → Reply R × S
  answer fail_open (ok decision) s =
      if decision.allowed then serve s else (too_many_requests decision.retry_after_seconds, s)
  answer fail_open (err _) s = if fail_open then serve s else (service_unavailable, s)

  -- `RateLimitMiddleware.__call__`; the limiter may be missing.
  unfoldable pub call :
      Bool → Option (Text → Action RateLimitError S RateLimitDecision) → Scope → S → Reply R × S
  unfolding should_limit
  call fail_open limiter scope s = if not (should_limit scope) then serve s else elim limiter [
    | none ↦ (runtime_error, s)
    | some acquire ↦
        let (decision, after) = acquire (identity scope) s in answer fail_open decision after
  ]
