-- ===== src/RateLimit/Admission.antt =====
-- The middleware over the limiter: how often the application is reached.
use fast_api_scaff.Prelude.{
  ℕ, suc, ◌+◌, ◌-◌, ◌*◌, ◌^◌, ◌≡◌, ◌≤◌, ◌<◌, Bool, true, false, Option, none, some, List, [], ◌∷◌,
  All, length, if◌then◌else◌, ◌==◌, Text, arith, Bool-cases, inl, inr, ==_iff,
}
use fast_api_scaff.Redis.{Redis, Documented}
use fast_api_scaff.Redis.Decimal.{decimal}
use fast_api_scaff.RateLimit.{Quota, quota_key, acquire}
use fast_api_scaff.RateLimit.Window.{
  Passing, Open, Open-meanwhile, minimum, acquire-first, acquire-next, acquire-full,
}
use fast_api_scaff.RateLimit.Middleware.{Scope, should_limit, Reply, served, call}

abbrev is_served : {R : Type 0} → Reply R → Bool
is_served (served _) = true
is_served _ = false

abbrev pub served_count : {R : Type 0} → List (Reply R) → ℕ
served_count [] = 0
served_count (reply ∷ replies) =
    let rest = served_count replies in if is_served reply then suc rest else rest

module _ {R : Type 0} (redis : Redis) (to_number : Text → Option ℕ) (sha256 build : Text → Text)
    (q : Quota) (app : redis.Store → R × redis.Store) (identity : Scope → Text)
    (fail_open : Bool) where
  -- Requests, one after the other.
  unfoldable pub call_all : List Scope → redis.Store → List (Reply R) × redis.Store
  call_all [] s = ([], s)
  call_all (scope ∷ scopes) s =
      let (reply, t) =
        call app identity fail_open (some (acquire redis to_number sha256 build q)) scope s in
      let (replies, after) = call_all scopes t in (reply ∷ replies, after)

-- Requests that are counted, of one client.
pub record From (identity : Scope → Text) (client : Text) (scope : Scope) : Type 0 where
  pub limited : should_limit scope ≡ true
  pub client_of : identity scope ≡ client

module _ {R : Type 0} (redis : Redis) (laws : Documented redis) (to_number : Text → Option ℕ)
    (to_number-decimal : (n : ℕ) → n < 2 ^ 53 → to_number (decimal n) ≡ some n)
    (sha256 build : Text → Text) (q : Quota) (limit : 1 ≤ q.max_requests)
    (small : q.max_requests < 2 ^ 53) (window : 1 ≤ q.window_seconds)
    (connects : (s : redis.Store) → redis.connect s ≡ none) (client : Text)
    (app : redis.Store → R × redis.Store) (identity : Scope → Text) (fail_open : Bool)
    (passing : Passing redis (build (quota_key q (sha256 client))) (λ s. (app s).1)) where
  abbrev key : Text
  key = build (quota_key q (sha256 client))

  served_later :
      (scopes : List Scope) (n : ℕ) (s : redis.Store)
      → 1 ≤ n
      → n ≤ q.max_requests
      → All (From identity client) scopes
      → Open redis key (q.window_seconds * 1000) n s
      → served_count (call_all redis to_number sha256 build q app identity fail_open scopes s).0
        ≡ minimum (length scopes) (q.max_requests - n)
  unfolding call_all call
  served_later [] n s one few counted open_ = ground arith
  served_later (scope ∷ scopes) n s one few (counted, others) open_ =
      elim (Bool-cases (n == q.max_requests)) [
        | inl full ↦
            let (seconds, e, _, _) =
              acquire-full redis laws to_number to_number-decimal sha256 build q limit small window
                connects client n s ((==_iff n q.max_requests).0 full) open_ in
            rw (counted.limited, counted.client_of, e)
              (ground (arith, served_later scopes n s one few others open_))
        | inr more ↦
            let (after, e, kept) =
              acquire-next redis laws to_number to_number-decimal sha256 build q limit small window
                connects client n s one (ground arith) open_ in
            let later =
              Open-meanwhile redis key (q.window_seconds * 1000) (n + 1) after (λ t. (app t).1)
                passing kept in
            rw (counted.limited, counted.client_of, e)
              (ground (
                arith,
                served_later scopes (n + 1) (app after).1 (omega arith) (ground arith) others later,
              ))
      ]

  -- Through the middleware, of the requests of one client in one window that are counted, exactly
  -- `max_requests` reach the application, or all where they are fewer. The key does not expire
  -- meanwhile, the server answers, and the application does not touch the key.
  pub call_all-served :
      (scopes : List Scope) (s : redis.Store)
      → redis.get key s ≡ none
      → All (From identity client) scopes
      → served_count (call_all redis to_number sha256 build q app identity fail_open scopes s).0
        ≡ minimum (length scopes) q.max_requests
  unfolding call_all call
  call_all-served [] s fresh counted = ground arith
  call_all-served (scope ∷ scopes) s fresh (counted, others) =
      let (after, e, opened) =
        acquire-first redis laws to_number to_number-decimal sha256 build q limit small window
          connects client s fresh in
      let later =
        Open-meanwhile redis key (q.window_seconds * 1000) 1 after (λ t. (app t).1) passing
          opened in
      rw (counted.limited, counted.client_of, e)
        (ground (arith, served_later scopes 1 (app after).1 (omega arith) limit others later))
