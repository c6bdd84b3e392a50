-- ===== src/Examples/Quotas.antt =====
-- Three requests of one client within a window of two requests.
use fast_api_scaff.Prelude.{
  ℕ, ◌^◌, ◌≡◌, ◌<◌, refl, true, false, Option, none, some, [], ◌∷◌, ◌++◌, All, Text, codes, arith,
  ap,
}
use fast_api_scaff.Redis.Decimal.{decimal, number, number-decimal}
use fast_api_scaff.RateLimit.{Quota, quota_key}
use fast_api_scaff.RateLimit.Window.{Passing, requests, admissions, Fair, minimum, requests-window}
use fast_api_scaff.RateLimit.Middleware.{Scope, should_limit, should_limit-mounted, client_identity}
use fast_api_scaff.RateLimit.Admission.{From, call_all, served_count, call_all-served}
use fast_api_scaff.Examples.{evaluation}
use fast_api_scaff.Examples.Servers.{
  Keys, server, server-Documented, still, sha256, prefixed, no_keys,
}

abbrev quota : Quota
quota = record { max_requests = 2; window_seconds = 60 }

abbrev to_number : Text → Option ℕ
to_number text = some (number text)

to_number-decimal : (n : ℕ) → n < 2 ^ 53 → to_number (decimal n) ≡ some n
to_number-decimal n h = ap (λ m. some m) (number-decimal n)

abbrev client : Text
client = codes "ip:192.0.2.1"

still-Passing : Passing server (prefixed (quota_key quota (sha256 client))) still
still-Passing = record { get = λ s. refl; pttl = λ s t e. (t, e, omega arith) }

requests-window_example :
    (admissions
        (requests server to_number sha256 prefixed quota client
          (still ∷ still ∷ still ∷ [])
          no_keys).0
      ≡ minimum 3 2)
    × All
        (Fair quota)
        (requests server to_number sha256 prefixed quota client
          (still ∷ still ∷ still ∷ [])
          no_keys).0
requests-window_example =
    requests-window server server-Documented to_number to_number-decimal sha256 prefixed quota
      (omega arith) (omega arith) (omega arith) (λ s. refl) client (still ∷ still ∷ []) no_keys refl
      (still-Passing, (still-Passing, tt))

abbrev scope : Scope
scope = record {
  is_http = true;
  path = codes "/api/v1/users";
  root_path = [];
  method = codes "GET";
  headers = [];
  client = some (codes "192.0.2.1");
}

should_limit-mounted_example :
    should_limit
      (record scope { root_path = codes "/app"; path = codes "/app" ++ codes "/api/v1/users" })
    ≡ should_limit (record scope { root_path = []; path = codes "/api/v1/users" })
unfolding evaluation
should_limit-mounted_example =
    should_limit-mounted scope (codes "/app") (codes "/api/v1/users") refl

abbrev identity : Scope → Text
identity = client_identity (λ host. some host) (λ address. none) (λ address. address)

scope-From : From identity client scope
unfolding evaluation
scope-From = record { limited = refl; client_of = refl }

abbrev app : Keys → ℕ × Keys
app keys = (200, keys)

call_all-served_example :
    served_count
      (call_all server to_number sha256 prefixed quota app identity false
        (scope ∷ scope ∷ scope ∷ [])
        no_keys).0
    ≡ minimum 3 2
call_all-served_example =
    call_all-served server server-Documented to_number to_number-decimal sha256 prefixed quota
      (omega arith) (omega arith) (omega arith) (λ s. refl) client app identity false
      (record { get = λ s. refl; pttl = λ s t e. (t, e, omega arith) }) (scope ∷ scope ∷ scope ∷ [])
      no_keys refl (scope-From, (scope-From, (scope-From, tt)))
