-- ===== src/RateLimit.antt =====
-- app/infrastructure/rate_limit: a quota of requests in a fixed window, shared through Redis. The
-- decisions and the script are those of redis.py and scripts/acquire_window.lua.
pub mod Window
pub mod Middleware
pub mod Admission
use fast_api_scaff.Prelude.{
  ℕ, ◌+◌, ◌-◌, ◌*◌, ◌/◌, ◌≡◌, Bool, true, false, not, ◌||◌, ◌&&◌, Option, none, some, List, [], ◌∷◌,
  ltb, leb, ◌==◌, if◌then◌else◌, Text, codes, ◌++◌, Result, ok, err, Action, and_then,
}
use fast_api_scaff.Redis.{Redis, Ttl, missing, persistent, left}
use fast_api_scaff.Redis.Decimal.{decimal}

-- `RateLimitDecision`
pub record RateLimitDecision : Type 0 where
  pub allowed : Bool
  pub retry_after_seconds : ℕ

pub data RateLimitError : Type 0 where
  rate_limit_unavailable value_error : RateLimitError

-- `RedisFixedWindowLimiter`
pub record Quota : Type 0 where
  pub max_requests : ℕ
  pub window_seconds : ℕ

abbrev out_of_range : ℕ → ℕ → Bool
out_of_range value maximum = ltb value 1 || ltb maximum value

-- `__post_init__`
unfoldable pub new_quota : Quota → Result RateLimitError Quota
new_quota q =
    if out_of_range q.max_requests 1000000 || out_of_range q.window_seconds 86400
    then err value_error
    else ok q

-- `_parse_result` on the integers of the script's reply; `none` is `CacheOperationError`.
unfoldable pub parse_result : Quota → List ℕ → Option (Bool × ℕ)
parse_result q (allowed ∷ ttl ∷ []) =
    if ltb 1 allowed || ltb (q.window_seconds * 1000) ttl
    then none
    else if allowed == 1 && not (ttl == 0)
    then none
    else some (allowed == 1, ttl)
parse_result q _ = none

unfoldable pub decision_of : Option (Bool × ℕ) → Result RateLimitError RateLimitDecision
decision_of none = err rate_limit_unavailable
decision_of (some (allowed, ms)) = ok (record {
  allowed = allowed;
  retry_after_seconds =
      if allowed
      then 0
      else (let seconds = (ms + 999) / 1000 in if seconds == 0 then 1 else seconds);
})

unfoldable pub quota_key : Quota → Text → Text
quota_key q digest =
    codes "rate-limit:http:ip:"
    ++ (decimal q.max_requests
        ++ (codes ":" ++ (decimal q.window_seconds ++ (codes ":" ++ digest))))

-- Lua's `tonumber` is `to_number`, where a value that is no natural number is `none`.
module _ (redis : Redis) (to_number : Text → Option ℕ) where
  open redis use {Store}

  -- scripts/acquire_window.lua once there is a value.
  abbrev count_one : Text → ℕ → Option ℕ → Ttl → Store → Option (List ℕ) × Store
  count_one key limit (some count) (left ttl) s =
      if count == 0
      then (none, s)
      else if leb limit count
      then (some (0 ∷ ttl ∷ []), s)
      else (let (counted, after) = redis.incr key s in
          (elim counted [ none ↦ none | some _ ↦ some (1 ∷ 0 ∷ []) ], after))
  count_one key limit _ _ s = (none, s)

  -- The script; `none` is an error reply.
  unfoldable pub acquire_window : Text → ℕ → ℕ → Store → Option (List ℕ) × Store
  acquire_window key limit window_ms s = elim (redis.get key s) [
    | none ↦ (some (1 ∷ 0 ∷ []), redis.set_px key (decimal 1) window_ms s)
    | some raw ↦ count_one key limit (to_number raw) (redis.pttl key s) s
  ]

  abbrev parsed : Quota → Option (List ℕ) → Option (Bool × ℕ)
  parsed q none = none
  parsed q (some reply) = parse_result q reply

  -- `acquire`, where `build` is the key builder of the client.
  unfoldable pub acquire :
      (Text → Text) → (Text → Text) → Quota → Text → Action RateLimitError Store RateLimitDecision
  unfolding acquire_window decision_of parse_result quota_key
  acquire sha256 build q identity s = elim (redis.connect s) [
    | some error ↦ (err rate_limit_unavailable, s)
    | none ↦
        let key = build (quota_key q (sha256 identity)) in
        let (reply, after) = acquire_window key q.max_requests (q.window_seconds * 1000) s in
        (decision_of (parsed q reply), after)
  ]
