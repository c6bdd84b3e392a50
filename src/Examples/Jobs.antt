-- ===== src/Examples/Jobs.antt =====
-- A worker whose jobs fail for a while.
use fast_api_scaff.Prelude.{
  ℕ, ◌≡◌, ◌≢◌, ◌≤◌, ◌+◌, ◌⊎◌, inl, refl, Bool, true, false, Text, Result, codes, ok, err, [], ◌∷◌,
  none, some, ltb, if◌then◌else◌,
}
use fast_api_scaff.Worker.Policy.{Floats, JobPolicy, new_policy}
use fast_api_scaff.Worker.Attempts.Waits.{waits, tries, run_attempts-waits}
use fast_api_scaff.Worker.Attempts.{
  ErrorDetails, Outcome, returned, retryable_job_error, retry_exhausted, ExecutionResult,
  run_attempts, runtime_error,
}
use fast_api_scaff.Worker.Attempts.Bounds.{
  before_try, run_attempts-attempts, run_attempts-reason, run_attempts-no_runtime_error,
}
use fast_api_scaff.Worker.Failures.{FailedJobRecord, WorkerState, row_of}
use fast_api_scaff.Worker.Executor.{
  MessageEnvelope, Delivery, Surroundings, ExecutableJob, ResolutionError, unknown_job_error,
  recorded, failure_id, execute,
}
use fast_api_scaff.Worker.Executor.Acknowledged.{execute-acknowledged}
use fast_api_scaff.Worker.Executor.Delivered.{Succeeded, Recorded, execute-safe}
use fast_api_scaff.Worker.Executor.Redelivered.{redeliver, with_jobs, redeliver-recorded}
use fast_api_scaff.Worker.Executor.Kept.{execute-keeps_first}
use fast_api_scaff.Examples.{evaluation, at, digest}

-- Seconds are counted.
abbrev counted : Floats
counted = record {
  Float = ℕ;
  zero_seconds = 0;
  is_finite = λ s. true;
  is_positive = λ s. ltb 0 s;
  is_negative = λ s. false;
}

abbrev policy : JobPolicy counted
policy = record { max_attempts = 3; backoff_seconds = 1 ∷ 5 ∷ []; timeout_seconds = 30 }

abbrev busy : ErrorDetails
busy = record { error_type = codes "Busy"; stacktrace = [] }

-- The world counts the tries and the seconds of the delays. A job fails until it was tried `n` times.
abbrev tried : ℕ → ℕ × ℕ → Outcome × (ℕ × ℕ)
tried n (count, slept) =
    (if ltb (count + 1) n then retryable_job_error busy else returned false, (count + 1, slept))

abbrev wait : ℕ → ℕ × ℕ → ℕ × ℕ
wait s (count, slept) = (count, slept + s)

abbrev exhausted : ExecutionResult
exhausted = record { attempts = 3; failure_reason = some retry_exhausted; details = some busy }

exhausted_run : run_attempts counted policy (tried 9) wait (0, 0) ≡ (ok exhausted, (3, 6))
unfolding evaluation
exhausted_run = refl

run_attempts-attempts_example :
    (1 ≤ 3) × (3 ≤ 3) × ((3, 6) ≡ (tried 9 (before_try counted policy (tried 9) wait 2 1 (0, 0))).1)
run_attempts-attempts_example =
    run_attempts-attempts counted policy (tried 9) wait (0, 0) (3, 6) exhausted exhausted_run

run_attempts-reason_example : exhausted.attempts ≡ policy.max_attempts
run_attempts-reason_example =
    run_attempts-reason counted policy (tried 9) wait (0, 0) (3, 6) exhausted exhausted_run
      (inl refl)

policy_run : new_policy counted policy ≡ ok policy
unfolding evaluation
policy_run = refl

run_attempts-no_runtime_error_example :
    run_attempts counted policy (tried 2) wait (0, 0) ≢ (err runtime_error, (2, 1))
run_attempts-no_runtime_error_example =
    run_attempts-no_runtime_error counted policy (tried 2) wait (0, 0) (2, 1) policy_run

run_attempts-waits_example :
    (3, 6) ≡ (tried 9 (tries counted policy (tried 9) wait (waits 0 (1 ∷ 5 ∷ []) 2) (0, 0))).1
run_attempts-waits_example =
    run_attempts-waits counted policy (tried 9) wait (0, 0) (3, 6) exhausted exhausted_run

abbrev message : MessageEnvelope
message = record {
  job_id = 3;
  job_type = codes "mail";
  job_version = 1;
  payload = codes "x";
  enqueued_at = at 1;
  correlation_id = none;
  replay_of = none;
}

abbrev outside : Surroundings counted (ℕ × ℕ)
outside = record {
  decode = λ t. some message;
  sha256 = λ t. digest;
  uuid_text = λ n. n ∷ [];
  uuid5 = λ c q i. 77;
  resolve = λ t v. ok (record { policy = policy; execute = λ m. tried 9 });
  sleep = wait;
  reachable = λ w. (true, w);
  acknowledge = λ d w. (true, w);
}

abbrev delivery : Bool → Delivery
delivery again = record { payload = codes "{}"; possibly_redelivered = again }

abbrev idle : WorkerState (ℕ × ℕ)
idle = record { failures = []; acknowledged = false; rest = (0, 0) }

abbrev afterwards : WorkerState (ℕ × ℕ)
afterwards =
    (execute counted outside (codes "main") (codes "default") (at 9) (delivery false) idle).1

execute_run :
    execute counted outside (codes "main") (codes "default") (at 9) (delivery false) idle
    ≡ (ok tt, afterwards)
unfolding evaluation
execute_run = refl

execute-acknowledged_example : afterwards.acknowledged ≡ true
execute-acknowledged_example =
    execute-acknowledged counted outside (codes "main") (codes "default") (at 9) (delivery false)
      idle afterwards execute_run

acknowledged_run : afterwards.acknowledged ≡ true
unfolding evaluation
acknowledged_run = refl

execute-safe_example :
    Succeeded counted outside
      (codes "main")
      (codes "default")
      (at 9)
      (delivery false)
      (recorded counted outside
        (codes "main")
        (codes "default")
        (at 9)
        (delivery false)
        idle).1.rest
    ⊎ Recorded counted outside
        (codes "main")
        (codes "default")
        (at 9)
        (failure_id counted outside (codes "main") (codes "default") (at 9) (delivery false))
        afterwards
execute-safe_example =
    execute-safe counted outside (codes "main") (codes "default") (at 9) (delivery false) idle refl
      acknowledged_run

abbrev stored : FailedJobRecord
stored = record {
  failure_id = 77;
  payload = codes "{}";
  connection = codes "main";
  queue = codes "default";
  failed_at = at 9;
  attempts = 3;
  reason = retry_exhausted;
  job_id = some 3;
  details = some busy;
}

abbrev failed_before : WorkerState (ℕ × ℕ)
failed_before = record { failures = stored ∷ []; acknowledged = false; rest = (3, 6) }

abbrev no_jobs : Text → ℕ → Result ResolutionError (ExecutableJob counted (ℕ × ℕ))
no_jobs job_type version = err unknown_job_error

recorded_run :
    row_of
      (failure_id counted outside (codes "main") (codes "default") (at 9) (delivery true))
      failed_before.failures
    ≡ some stored
unfolding evaluation
recorded_run = refl

redeliver-recorded_example :
    (redeliver counted
        (codes "main")
        (codes "default")
        outside
        (delivery true)
        (at 9 ∷ at 10 ∷ [])
        failed_before
      ≡ redeliver counted
          (codes "main")
          (codes "default")
          (with_jobs counted (codes "main") (codes "default") outside no_jobs)
          (delivery true)
          (at 9 ∷ at 10 ∷ [])
          failed_before)
    × ((redeliver counted
          (codes "main")
          (codes "default")
          outside
          (delivery true)
          (at 9 ∷ at 10 ∷ [])
          failed_before).1.failures
        ≡ failed_before.failures)
redeliver-recorded_example =
    redeliver-recorded counted (codes "main") (codes "default") outside no_jobs (delivery true) refl
      (at 9 ∷ at 10 ∷ []) (at 9) failed_before stored recorded_run

execute-keeps_first_example :
    row_of 77
      (execute counted outside
        (codes "main")
        (codes "default")
        (at 20)
        (delivery false)
        failed_before).1.failures
    ≡ some stored
execute-keeps_first_example =
    execute-keeps_first counted outside (codes "main") (codes "default") (at 20) 77 stored
      (delivery false) failed_before refl
