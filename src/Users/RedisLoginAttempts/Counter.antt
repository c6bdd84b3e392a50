-- ===== src/Users/RedisLoginAttempts/Counter.antt =====
-- The limiter over Redis as a counter of failures, for one identity, while time passes
-- but its key does not expire.
use fast_api_scaff.Prelude.{
  ℕ, ◌+◌, ◌-◌, ◌^◌, ◌≡◌, ◌∙◌, ◌≤◌, ◌<◌, refl, Bool, true, false, Option, none, some, ltb, leb, ◌==◌,
  if◌then◌else◌, Text, ok, Bool-cases, inl, inr, arith,
}
use fast_api_scaff.Users.LoginAttempts.{LoginFailureStatus}
use fast_api_scaff.Redis.{Redis, Documented, left}
use fast_api_scaff.Redis.Decimal.{
  number, decimal, is_canonical, decimal_below, decimal-canonical, number-decimal,
  decimal_below-decimal, decimal_below-number, number_after,
}
use fast_api_scaff.Users.RedisLoginAttempts.{Limits, increment_with_ttl, delete_below, maximum}

-- The specification: a number of failures, which a lock freezes, and a bound on the seconds for which
-- that lock lasts.
module _ (limits : Limits) where
  abbrev pub is_locked : ℕ → Bool
  is_locked failures = leb limits.max_failures failures

  -- What is told of a lock that lasts for `seconds`: at least one.
  abbrev pub wait : ℕ → ℕ → Option ℕ
  wait failures seconds =
      if is_locked failures then some (if seconds == 0 then 1 else seconds) else none

  abbrev pub locked_time : ℕ → Option ℕ
  locked_time failures = if is_locked failures then some limits.lock_seconds else none

  -- What a failure reports when it is the `failures`th.
  abbrev pub report : ℕ → LoginFailureStatus
  report failures = record {
    remaining_attempts = limits.max_failures - failures;
    retry_after_seconds = locked_time failures;
  }

  abbrev pub forget : ℕ → ℕ
  forget failures = if is_locked failures then failures else 0

-- What a count of failures is as the value of a key.
abbrev pub stored : ℕ → Option Text
stored failures = if failures == 0 then none else some (decimal failures)

module _ (redis : Redis) (limits : Limits) (key : Text) where
  -- The store has the count, and a locked one with at most so many seconds to live.
  pub record Counts (failures seconds : ℕ) (s : redis.Store) : Type 0 where
    pub count : redis.get key s ≡ stored failures
    pub lock :
        is_locked limits failures ≡ true → (t : ℕ) × (redis.ttl key s ≡ left t) × (t ≤ seconds)

  -- What happens between two commands, as far as the key goes: it does not expire, other clients leave
  -- it alone, and time passes.
  pub record Quiet (meanwhile : redis.Store → redis.Store) : Type 0 where
    pub get : (s : redis.Store) → redis.get key (meanwhile s) ≡ redis.get key s
    pub ttl :
        (s : redis.Store) (t : ℕ)
        → redis.ttl key s ≡ left t
        → (u : ℕ) × (redis.ttl key (meanwhile s) ≡ left u) × (u ≤ t)

  pub Counts-meanwhile :
      (meanwhile : redis.Store → redis.Store) (failures seconds : ℕ) (s : redis.Store)
      → Quiet meanwhile
      → Counts failures seconds s
      → Counts failures seconds (meanwhile s)
  Counts-meanwhile meanwhile failures seconds s quiet h = record {
    count = quiet.get s ∙ h.count;
    lock = λ locked.
        let (t, e, bound) = h.lock locked in
        let (u, f, less) = quiet.ttl s t e in (u, f, omega (arith, bound, less));
  }

pub record Positive (limits : Limits) : Type 0 where
  pub max_failures : 1 ≤ limits.max_failures
  pub failure_window_seconds : 1 ≤ limits.failure_window_seconds
  pub lock_seconds : 1 ≤ limits.lock_seconds

module _ (redis : Redis) (laws : Documented redis) (key : Text) (window : ℕ)
    (positive : 1 ≤ window) where
  -- The script counts one more.
  pub increment-stored :
      (failures : ℕ) (s : redis.Store)
      → failures < 2 ^ 63 - 1
      → redis.get key s ≡ stored failures
      → ((increment_with_ttl redis key window s).0 ≡ ok (failures + 1))
        × (redis.get key (increment_with_ttl redis key window s).1 ≡ stored (failures + 1))
  unfolding increment_with_ttl
  increment-stored failures s small h = elim (Bool-cases (failures == 0)) [
    | inl first ↦
        let absent : redis.get key s ≡ none = ground arith in
        ground (
          arith,
          laws.incr-missing key s absent,
          laws.get-incr-missing key s absent,
          laws.get-expire key window (decimal 1) (redis.incr key s).1
              (laws.get-incr-missing key s absent) positive,
        )
    | inr later ↦
        let there : redis.get key s ≡ some (decimal failures) = ground arith in
        ground (
          arith,
          laws.incr-some key failures s there small,
          laws.get-incr-some key failures s there small,
        )
  ]

maximum-number : (number maximum ≡ 2 ^ 63 - 1) × (is_canonical maximum ≡ true)
unfolding number_after
maximum-number = (refl, refl)

-- No count of the server is above the largest.
maximum-not_below :
    (failures : ℕ)
    → 1 ≤ failures
    → failures ≤ 2 ^ 63 - 1
    → decimal_below maximum (decimal failures) ≡ false
maximum-not_below failures one small =
    rw
      (decimal_below-number maximum (decimal failures) maximum-number.1
        (decimal-canonical failures one))
      (ground (arith, maximum-number.0, number-decimal failures))

module _ (redis : Redis) (laws : Documented redis) (key : Text) where
  pub delete-stored :
      (threshold failures : ℕ) (s : redis.Store)
      → 1 ≤ threshold
      → failures ≤ 2 ^ 63 - 1
      → redis.get key s ≡ stored failures
      → ((delete_below redis key (decimal threshold) s).0
          ≡ ok (if failures == 0 then 0 else if ltb failures threshold then 1 else 0))
        × ((delete_below redis key (decimal threshold) s).1 ≡ (
            if failures == 0 then s else if ltb failures threshold then (redis.del key s).1 else s))
  unfolding delete_below
  delete-stored threshold failures s one small h = elim (Bool-cases (failures == 0)) [
    | inl first ↦
        let absent : redis.get key s ≡ none = ground arith in
        ground (arith, decimal-canonical threshold one)
    | inr later ↦
        let there : redis.get key s ≡ some (decimal failures) = ground arith in
        ground (
          arith,
          decimal-canonical threshold one,
          decimal-canonical failures (ground arith),
          maximum-not_below failures (ground arith) small,
          decimal_below-decimal failures threshold (ground arith) one,
          laws.del-some key (decimal failures) s there,
        )
  ]
