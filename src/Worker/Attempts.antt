-- ===== src/Worker/Attempts.antt =====
-- `run_attempts` of app/interfaces/worker/executor.py: the tries of one delivery.
pub mod Bounds
pub mod Waits
use fast_api_scaff.Prelude.{
  ℕ, zero, suc, ◌+◌, Bool, true, false, Option, none, some, ◌==◌, if◌then◌else◌, Text, Result, ok,
  err, Action,
}
use fast_api_scaff.Worker.Policy.{Floats, JobPolicy, retry_delay}

pub data FailureReason : Type 0 where
  timeout_suppressed : FailureReason
  retry_exhausted : FailureReason
  handler_timeout_error : FailureReason
  execution_timeout : FailureReason
  handler_error : FailureReason
  invalid_job_payload : FailureReason
  invalid_envelope : FailureReason
  unknown_job : FailureReason
  unsupported_job_version : FailureReason

-- What leaves the worker as an exception.
pub data WorkerError : Type 0 where
  job_definition_error : WorkerError
  runtime_error : WorkerError
  cancelled_error : WorkerError
  store_error : WorkerError
  acknowledge_error : WorkerError

-- `safe_exception_details`: the name of the type and the stack, as a text.
pub record ErrorDetails : Type 0 where
  pub error_type : Text
  pub stacktrace : Text

-- How `async with asyncio.timeout(…): await binding.execute(payload, context)` ends. The Boolean
-- is `timeout.expired()`.
pub data Outcome : Type 0 where
  returned : Bool → Outcome
  retryable_job_error : ErrorDetails → Outcome
  timeout_error : Bool → ErrorDetails → Outcome
  invalid_message_error : ErrorDetails → Outcome
  definition_error : Outcome
  exception : ErrorDetails → Outcome
  cancelled : Outcome

pub record ExecutionResult : Type 0 where
  pub attempts : ℕ
  pub failure_reason : Option FailureReason
  pub details : Option ErrorDetails

abbrev pub succeeded : ℕ → ExecutionResult
succeeded attempts = record { attempts = attempts; failure_reason = none; details = none }

-- `_failed_result`
unfoldable pub failed_result : ℕ → FailureReason → ErrorDetails → ExecutionResult
failed_result attempts reason error = record {
  attempts = attempts;
  failure_reason = some reason;
  details = some error;
}

-- What a try leads to: the end of the loop, by a result or an exception, or the code after the
-- `try`, with its reason and error.
pub data Step : Type 0 where
  finished : Result WorkerError ExecutionResult → Step
  failed : FailureReason → ErrorDetails → Step

-- The `try` with its `except` clauses, `_classify_job_error` included.
unfoldable pub classify : ℕ → Outcome → Step
unfolding failed_result
classify attempt (returned true) =
    finished
      (ok (record { attempts = attempt; failure_reason = some timeout_suppressed; details = none }))
classify attempt (returned false) = finished (ok (succeeded attempt))
classify attempt (retryable_job_error error) = failed retry_exhausted error
classify attempt (timeout_error false error) =
    finished (ok (failed_result attempt handler_timeout_error error))
classify attempt (timeout_error true error) = failed execution_timeout error
classify attempt (invalid_message_error error) =
    finished (ok (failed_result attempt invalid_job_payload error))
classify attempt definition_error = finished (err job_definition_error)
classify attempt (exception error) = finished (ok (failed_result attempt handler_error error))
classify attempt cancelled = finished (err cancelled_error)

-- The world that the handler and the clock change. A cancellation reaches the worker in a try, as
-- its outcome, and not in a delay.
module _ (floats : Floats) {W : Type 0} (policy : JobPolicy floats) (execute : W → Outcome × W)
    (sleep : floats.Float → W → W) where
  -- The end of a turn, with the turns that follow it.
  abbrev pub end_turn :
      ℕ → Step → Action WorkerError W ExecutionResult → Action WorkerError W ExecutionResult
  end_turn attempt (finished result) rest w = (result, w)
  end_turn attempt (failed reason error) rest w =
      if attempt == policy.max_attempts
      then (ok (failed_result attempt reason error), w)
      else rest (sleep (retry_delay floats policy attempt) w)

  -- The turns of the loop that are left, and the number of the next one.
  unfoldable pub turns : ℕ → ℕ → Action WorkerError W ExecutionResult
  unfolding classify
  turns zero attempt w = (err runtime_error, w)
  turns (suc left) attempt w =
      let (outcome, w') = execute w in
      end_turn attempt (classify attempt outcome) (turns left (attempt + 1)) w'

  unfoldable pub run_attempts : Action WorkerError W ExecutionResult
  unfolding turns
  run_attempts = turns policy.max_attempts 1
