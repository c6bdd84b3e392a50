-- ===== src/Worker/Attempts/Bounds.antt =====
-- How often `run_attempts` runs the handler, and what its result says.
use fast_api_scaff.Prelude.{
  ℕ, zero, suc, ◌≡◌, refl, ◌+◌, ◌-◌, ◌≤◌, ◌<◌, ◌⊎◌, inl, inr, some, ◌==◌, ok, err, Action, arith,
  Bool-cases, ◌≢◌,
}
use fast_api_scaff.Worker.Policy.{Floats, JobPolicy, retry_delay, new_policy}
use fast_api_scaff.Worker.Attempts.{
  FailureReason, retry_exhausted, execution_timeout, WorkerError, runtime_error, ErrorDetails,
  Outcome, Step, finished, failed, ExecutionResult, failed_result, classify, end_turn, turns,
  run_attempts,
}

classify-attempts :
    (attempt : ℕ) (outcome : Outcome) (r : ExecutionResult)
    → classify attempt outcome ≡ finished (ok r)
    → r.attempts ≡ attempt
unfolding classify failed_result
classify-attempts attempt outcome r h = ground (arith, outcome)

classify-not_runtime :
    (attempt : ℕ) (outcome : Outcome) → classify attempt outcome ≢ finished (err runtime_error)
unfolding classify
classify-not_runtime attempt outcome h = ground (arith, outcome)

classify-reason :
    (attempt : ℕ) (outcome : Outcome) (r : ExecutionResult)
    → classify attempt outcome ≡ finished (ok r)
    → (r.failure_reason ≡ some retry_exhausted) ⊎ (r.failure_reason ≡ some execution_timeout)
    → ⊥
unfolding classify failed_result
classify-reason attempt outcome r h q = ground (arith, outcome)

module _ (floats : Floats) {W : Type 0} (policy : JobPolicy floats) (execute : W → Outcome × W)
    (sleep : floats.Float → W → W) where
  -- The world before the try that follows `n` failed ones, from the given try on.
  abbrev pub before_try : ℕ → ℕ → W → W
  before_try zero attempt w = w
  before_try (suc n) attempt w =
      before_try n (attempt + 1) (sleep (retry_delay floats policy attempt) (execute w).1)

  -- The three ways in which a turn leads to a result.
  end_turn-eq_ok :
      (attempt : ℕ) (s : Step) (rest : Action WorkerError W ExecutionResult) (w w' : W)
      (r : ExecutionResult)
      → end_turn floats policy execute sleep attempt s rest w ≡ (ok r, w')
      → ((s ≡ finished (ok r)) × (w' ≡ w))
        ⊎ (((attempt ≡ policy.max_attempts)
              × (w' ≡ w)
              × ((reason : FailureReason) × (error : ErrorDetails) × (s ≡ failed reason error)
                  × (r ≡ failed_result attempt reason error)))
            ⊎ ((attempt ≢ policy.max_attempts)
                × (rest (sleep (retry_delay floats policy attempt) w) ≡ (ok r, w'))))
  end_turn-eq_ok attempt (finished ended) rest w w' r h = inl (ground arith, ground arith)
  end_turn-eq_ok attempt (failed reason error) rest w w' r h =
      elim (Bool-cases (attempt == policy.max_attempts)) [
        | inl last ↦ inr (inl (ground arith, ground arith, (reason, error, refl, ground arith)))
        | inr more ↦ inr (inr (ground arith, ground arith))
      ]

  turns-eq_ok :
      (left attempt : ℕ) (w w' : W) (r : ExecutionResult)
      → left + attempt ≡ policy.max_attempts + 1
      → turns floats policy execute sleep left attempt w ≡ (ok r, w')
      → (n : ℕ) × (r.attempts ≡ attempt + n)
        × (n < left)
        × (w' ≡ (execute (before_try n attempt w)).1)
  unfolding turns failed_result
  turns-eq_ok zero attempt w w' r e h = ground arith
  turns-eq_ok (suc left) attempt w w' r e h =
      elim (end_turn-eq_ok attempt (classify attempt (execute w).0)
        (turns floats policy execute sleep left (attempt + 1)) (execute w).1 w' r h) [
          | inl (c, same) ↦
              (0, ground (arith, classify-attempts attempt (execute w).0 r c), ground arith, same)
          | inr (inl (last, same, why)) ↦ (0, ground arith, ground arith, same)
          | inr (inr (more, k)) ↦
              let (n, count, below, same) =
                turns-eq_ok left (attempt + 1)
                  (sleep (retry_delay floats policy attempt) (execute w).1) w' r (ground arith) k in
              (suc n, ground arith, ground arith, same)
        ]

  -- When `run_attempts` returns a result, the handler ran as often as the result says, at least once and
  -- at most `max_attempts` times, with the delays of the policy between the tries.
  pub run_attempts-attempts :
      (w w' : W) (r : ExecutionResult)
      → run_attempts floats policy execute sleep w ≡ (ok r, w')
      → (1 ≤ r.attempts)
        × (r.attempts ≤ policy.max_attempts)
        × (w' ≡ (execute (before_try (r.attempts - 1) 1 w)).1)
  unfolding run_attempts
  run_attempts-attempts w w' r h =
      let (n, count, below, same) = turns-eq_ok policy.max_attempts 1 w w' r refl h in
      let exact : r.attempts - 1 ≡ n = ground arith in (ground arith, ground arith, rw exact same)

  turns-reason :
      (left attempt : ℕ) (w w' : W) (r : ExecutionResult)
      → turns floats policy execute sleep left attempt w ≡ (ok r, w')
      → (r.failure_reason ≡ some retry_exhausted) ⊎ (r.failure_reason ≡ some execution_timeout)
      → r.attempts ≡ policy.max_attempts
  unfolding turns failed_result
  turns-reason zero attempt w w' r h q = ground arith
  turns-reason (suc left) attempt w w' r h q =
      elim (end_turn-eq_ok attempt (classify attempt (execute w).0)
        (turns floats policy execute sleep left (attempt + 1)) (execute w).1 w' r h) [
          | inl (c, same) ↦ absurd (classify-reason attempt (execute w).0 r c q)
          | inr (inl (last, same, (reason, error, c, f))) ↦ ground arith
          | inr (inr (more, k)) ↦
              turns-reason left (attempt + 1)
                (sleep (retry_delay floats policy attempt) (execute w).1) w' r k q
        ]

  end_turn-eq_err :
      (attempt : ℕ) (s : Step) (rest : Action WorkerError W ExecutionResult) (w w' : W)
      (c : WorkerError)
      → end_turn floats policy execute sleep attempt s rest w ≡ (err c, w')
      → (s ≡ finished (err c))
        ⊎ ((attempt ≢ policy.max_attempts)
            × (rest (sleep (retry_delay floats policy attempt) w) ≡ (err c, w')))
  end_turn-eq_err attempt (finished ended) rest w w' c h = inl (ground arith)
  end_turn-eq_err attempt (failed reason error) rest w w' c h =
      elim (Bool-cases (attempt == policy.max_attempts)) [
        | inl last ↦ ground arith
        | inr more ↦ inr (ground arith, ground arith)
      ]

  turns-not_runtime :
      (left attempt : ℕ) (w w' : W)
      → left + attempt ≡ policy.max_attempts + 1
      → 1 ≤ left
      → turns floats policy execute sleep left attempt w ≢ (err runtime_error, w')
  unfolding turns
  turns-not_runtime zero attempt w w' e p h = ground arith
  turns-not_runtime (suc left) attempt w w' e p h =
      elim (end_turn-eq_err attempt (classify attempt (execute w).0)
        (turns floats policy execute sleep left (attempt + 1)) (execute w).1 w' runtime_error h) [
          | inl c ↦ classify-not_runtime attempt (execute w).0 c
          | inr (more, k) ↦
              turns-not_runtime left (attempt + 1)
                (sleep (retry_delay floats policy attempt) (execute w).1) w' (ground arith)
                (ground arith) k
        ]

  -- A result that reports exhausted retries or an execution timeout comes after `max_attempts` tries.
  pub run_attempts-reason :
      (w w' : W) (r : ExecutionResult)
      → run_attempts floats policy execute sleep w ≡ (ok r, w')
      → (r.failure_reason ≡ some retry_exhausted) ⊎ (r.failure_reason ≡ some execution_timeout)
      → r.attempts ≡ policy.max_attempts
  unfolding run_attempts
  run_attempts-reason w w' r h = turns-reason policy.max_attempts 1 w w' r h

  -- With a policy that its constructor accepts, the loop never falls out of its range: the
  -- `RuntimeError` at the end of `run_attempts` is not raised.
  pub run_attempts-no_runtime_error :
      (w w' : W)
      → new_policy floats policy ≡ ok policy
      → run_attempts floats policy execute sleep w ≢ (err runtime_error, w')
  unfolding run_attempts new_policy
  run_attempts-no_runtime_error w w' h k =
      turns-not_runtime policy.max_attempts 1 w w' refl (ground arith) k
