-- ===== src/Users/RedisLoginAttempts/Refinement.antt =====
-- The limiter over Redis does what the counter says.
use fast_api_scaff.Prelude.{
  ℕ, ◌+◌, ◌-◌, ◌^◌, ◌≡◌, ◌≤◌, ◌<◌, refl, true, false, none, some, ◌==◌, Text, ok, ◌>>=◌, Bool-cases,
  inl, inr, arith, is_empty, [], ◌∷◌, ◌∙◌, if◌then◌else◌,
}
use fast_api_scaff.Users.Unicode.{Unicode}
use fast_api_scaff.Users.LoginAttempts.{new_status}
use fast_api_scaff.Redis.{Redis, Documented}
use fast_api_scaff.Redis.Decimal.{
  decimal, is_canonical, decimal-canonical, number-decimal, canonical-digits,
}
use fast_api_scaff.Users.RedisLoginAttempts.{
  Limits, decode_count, increment_with_ttl, connected, retry_after, record_failure, clear,
  final_key,
}
use fast_api_scaff.Users.RedisLoginAttempts.Counter.{
  is_locked, wait, report, forget, Counts, Quiet, Positive, increment-stored, delete-stored,
}

canonical-not_empty : (t : Text) → is_canonical t ≡ true → is_empty t ≡ false
canonical-not_empty [] h = cc
canonical-not_empty (c ∷ t) h = refl

decode_count-decimal : (n : ℕ) → 1 ≤ n → decode_count (decimal n) ≡ ok n
unfolding decode_count
decode_count-decimal n h =
    let canonical = decimal-canonical n h in
    ground (
      arith,
      canonical-not_empty (decimal n) canonical,
      canonical-digits (decimal n) canonical,
      number-decimal n,
    )

module _ (redis : Redis) (laws : Documented redis) (unicode : Unicode) (sha256 build : Text → Text)
    (limits : Limits) (positive : Positive limits) (meanwhile : redis.Store → redis.Store)
    (identity : Text)
    (quiet : Quiet redis limits
      (final_key redis unicode sha256 build limits meanwhile identity)
      meanwhile)
    (connects : (s : redis.Store) → redis.connect s ≡ none) where
  abbrev pub key : Text
  key = final_key redis unicode sha256 build limits meanwhile identity

  -- The wait is what is left of the lock, which is no more than it was.
  pub retry_after-counter :
      (failures seconds : ℕ) (s : redis.Store)
      → Counts redis limits key failures seconds s
      → (u : ℕ) × (after : redis.Store) × (u ≤ seconds)
        × (retry_after redis unicode sha256 build limits meanwhile identity s
            ≡ (ok (wait limits failures u), after))
        × Counts redis limits key failures u after
  unfolding retry_after connected ◌>>=◌
  retry_after-counter failures seconds s h = elim (Bool-cases (is_locked limits failures)) [
    | inl locked ↦
        let there : redis.get key s ≡ some (decimal failures) =
          ground (arith, h.count, positive.max_failures) in
        let decoded = decode_count-decimal failures (ground (arith, positive.max_failures)) in
        let (t, e, bound) = h.lock locked in
        let (u, f, less) = quiet.ttl s t e in
        (
          u,
          meanwhile s,
          omega (arith, bound, less),
          ground (arith, connects s, there, decoded, f),
          record { count = quiet.get s ∙ h.count; lock = λ _. (u, f, omega arith) },
        )
    | inr open_ ↦ (
      seconds,
      s,
      omega arith,
      elim (Bool-cases (failures == 0)) [
        | inl first ↦ ground (arith, connects s, h.count, positive.max_failures)
        | inr later ↦
            let there : redis.get key s ≡ some (decimal failures) = ground (arith, h.count) in
            ground (arith, connects s, there, decode_count-decimal failures (ground arith))
      ],
      h,
    )
  ]

  pub record_failure-counter :
      (failures seconds : ℕ) (s : redis.Store)
      → failures < 2 ^ 63 - 1
      → Counts redis limits key failures seconds s
      → (after : redis.Store) × (record_failure redis unicode sha256 build limits meanwhile identity
            s
          ≡ (ok (report limits (failures + 1)), after))
        × Counts redis limits key
            (failures + 1)
            (if is_locked limits (failures + 1) then limits.lock_seconds else seconds)
            after
  unfolding record_failure connected new_status ◌>>=◌
  record_failure-counter failures seconds s small h =
      let (counted, got) =
        increment-stored redis laws key limits.failure_window_seconds
          positive.failure_window_seconds failures s small h.count in
      let t = (increment_with_ttl redis key limits.failure_window_seconds s).1 in
      elim (Bool-cases (is_locked limits (failures + 1))) [
        | inl locked ↦
            let value = decimal (failures + 1) in
            let there : redis.get key (meanwhile t) ≡ some value =
              ground (arith, quiet.get t, got) in
            let time = limits.lock_seconds in
            let found = laws.expire-some key time value (meanwhile t) there positive.lock_seconds in
            let kept = laws.get-expire key time value (meanwhile t) there positive.lock_seconds in
            (
              (redis.expire key time (meanwhile t)).1,
              ground (arith, connects s, counted, found, positive.lock_seconds),
              rw locked (record {
                count = kept ∙ (ground arith);
                lock = λ _. (
                  time,
                  laws.ttl-expire key time value (meanwhile t) there positive.lock_seconds,
                  omega arith,
                );
              }),
            )
        | inr open_ ↦ (
          t,
          ground (arith, connects s, counted),
          rw open_ (record { count = got; lock = λ locked. ground arith }),
        )
      ]

  pub clear-counter :
      (failures seconds : ℕ) (s : redis.Store)
      → failures ≤ 2 ^ 63 - 1
      → Counts redis limits key failures seconds s
      → (after : redis.Store) × (clear redis unicode sha256 build limits meanwhile identity s
          ≡ (ok tt, after))
        × Counts redis limits key (forget limits failures) seconds after
  unfolding clear connected ◌>>=◌
  clear-counter failures seconds s small h =
      let (count, rest) =
        delete-stored redis laws key limits.max_failures failures s positive.max_failures small
          h.count in
      elim (Bool-cases (is_locked limits failures)) [
        | inl locked ↦
            (s, ground (arith, connects s, count, rest, positive.max_failures), rw locked h)
        | inr open_ ↦ elim (Bool-cases (failures == 0)) [
          | inl first ↦ (
            s,
            ground (arith, connects s, count, rest),
            rw open_ (record {
              count = ground (arith, h.count);
              lock = λ locked. ground (arith, positive.max_failures);
            }),
          )
          | inr later ↦ (
            (redis.del key s).1,
            ground (arith, connects s, count, rest),
            rw open_ (record {
              count = ground (arith, laws.get-del key s);
              lock = λ locked. ground (arith, positive.max_failures);
            }),
          )
        ]
      ]
