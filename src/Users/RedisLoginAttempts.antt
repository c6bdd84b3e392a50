-- ===== src/Users/RedisLoginAttempts.antt =====
-- infrastructure/security/redis_login_attempts.py and its two scripts. A script runs as one step of
-- the server; between two commands time passes and other clients go on, which is `meanwhile`.
pub mod Counter
pub mod Refinement
pub mod Traces
use fast_api_scaff.Prelude.{
  ℕ, ◌+◌, ◌-◌, ◌^◌, ◌≡◌, Bool, true, false, not, ◌||◌, ◌&&◌, Option, none, some, ltb, leb, ◌==◌,
  if◌then◌else◌, Text, codes, ◌++◌, all, is_empty, Result, ok, err, Action, pure, raise, lift,
  modify, raise_if, ◌>>=◌, ◌>>◌,
}
use fast_api_scaff.Users.Errors.{Error, value_error, cache_operation_error}
use fast_api_scaff.Users.Unicode.{Unicode, strip}
use fast_api_scaff.Users.LoginAttempts.{LoginFailureStatus, new_status, LoginAttemptLimiter}
use fast_api_scaff.Redis.{Redis, Ttl, missing, persistent, left}
use fast_api_scaff.Redis.Decimal.{is_digit, number, decimal, is_canonical, decimal_below}

-- `RedisLoginAttemptLimiter`
pub record Limits : Type 0 where
  pub max_failures : ℕ
  pub failure_window_seconds : ℕ
  pub lock_seconds : ℕ

-- `__post_init__`
unfoldable pub new_limits : Limits → Result Error Limits
new_limits l =
    if l.max_failures == 0 || (l.failure_window_seconds == 0 || l.lock_seconds == 0)
    then err value_error
    else ok l

-- `_decode_count`
unfoldable pub decode_count : Text → Result Error ℕ
decode_count raw =
    if is_empty raw || not (all is_digit raw)
    then err cache_operation_error
    else if number raw == 0
    then err cache_operation_error
    else ok (number raw)

-- `_key`
unfoldable pub key_of : Unicode → (Text → Text) → Text → Text
unfolding strip
key_of unicode sha256 identity =
    codes "auth:login:"
    ++ (sha256 (unicode.lower (strip unicode.is_space identity)) ++ codes ":failures")

-- The largest count of the server, in `delete_below`.
abbrev pub maximum : Text
maximum = codes "9223372036854775807"

module _ (redis : Redis) where
  open redis use {Store}

  -- scripts/increment_with_ttl.lua
  unfoldable pub increment_with_ttl : Text → ℕ → Action Error Store ℕ
  increment_with_ttl key window s =
      let (value, after) = redis.incr key s in
      elim value [
        | none ↦ (err cache_operation_error, after)
        | some count ↦ (ok count, if count == 1 then (redis.expire key window after).1 else after)
      ]

  -- scripts/delete_below.lua
  unfoldable pub delete_below : Text → Text → Action Error Store ℕ
  delete_below key threshold s =
      if not (is_canonical threshold)
      then (err cache_operation_error, s)
      else elim (redis.get key s) [
        | none ↦ (ok 0, s)
        | some raw ↦
            if not (is_canonical raw) || decimal_below maximum raw
            then (err cache_operation_error, s)
            else if decimal_below raw threshold
            then (let (count, after) = redis.del key s in (ok count, after))
            else (ok 0, s)
      ]

  -- `client_factory()`
  unfoldable pub connected : Action Error Store Unit
  connected s = elim (redis.connect s) [ none ↦ (ok tt, s) | some error ↦ (err error, s) ]

  -- The rest of `retry_after` once the count is at the limit.
  abbrev wait_of : Ttl → Result Error (Option ℕ)
  wait_of missing = ok none
  wait_of persistent = err cache_operation_error
  wait_of (left t) = ok (some (if t == 0 then 1 else t))

  module _ (unicode : Unicode) (sha256 build : Text → Text) (limits : Limits)
      (meanwhile : Store → Store) where
    -- The client's key builder is `build`.
    abbrev pub final_key : Text → Text
    final_key identity = build (key_of unicode sha256 identity)

    abbrev read_ttl : Text → Action Error Store (Option ℕ)
    read_ttl key s = (wait_of (redis.ttl key (meanwhile s)), meanwhile s)

    abbrev locked_for : Text → Option Text → Action Error Store (Option ℕ)
    locked_for key none = pure none
    locked_for key (some raw) = do
      count ← lift (decode_count raw)
      if ltb count limits.max_failures then pure none else read_ttl key

    -- `retry_after`
    unfoldable pub retry_after : Text → Action Error Store (Option ℕ)
    unfolding key_of decode_count
    retry_after identity = do
      connected
      raw ← λ s. (ok (redis.get (final_key identity) s), s)
      locked_for (final_key identity) raw

    abbrev extend : Text → Action Error Store Bool
    extend key s =
        let (found, after) = redis.expire key limits.lock_seconds (meanwhile s) in (ok found, after)

    -- `record_failure`
    unfoldable pub record_failure : Text → Action Error Store LoginFailureStatus
    unfolding key_of new_status
    record_failure identity = do
      connected
      count ← increment_with_ttl (final_key identity) limits.failure_window_seconds
      raise_if (count == 0) cache_operation_error
      if ltb count limits.max_failures
          then lift (
              new_status (record {
                remaining_attempts = limits.max_failures - count;
                retry_after_seconds = none;
              }))
          else (do
            found ← extend (final_key identity)
            raise_if (not found) cache_operation_error
            lift (
                new_status (record {
                  remaining_attempts = 0;
                  retry_after_seconds = some limits.lock_seconds;
                })))

    -- `clear`
    unfoldable pub clear : Text → Action Error Store Unit
    unfolding key_of
    clear identity = do
      connected
      count ← delete_below (final_key identity) (decimal limits.max_failures)
      raise_if (not (leb count 1)) cache_operation_error

    -- The limiter as the use cases see it.
    abbrev pub redis_limiter : LoginAttemptLimiter
    redis_limiter = record {
      State = Store;
      retry_after = retry_after;
      record_failure = record_failure;
      clear = clear;
    }
