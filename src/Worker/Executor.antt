-- ===== src/Worker/Executor.antt =====
-- `JobExecutor` of app/interfaces/worker/executor.py. Logging and the contexts of the log are not
-- modelled. The codec, the identifiers, the resolver and the backend are parameters.
pub mod Acknowledged
pub mod Delivered
pub mod Kept
pub mod Redelivered
use fast_api_scaff.Prelude.{
  ℕ, Bool, true, false, ◌&&◌, Option, none, some, if◌then◌else◌, Text, codes, ◌++◌, Result, ok, err,
  Action, pure, raise, lift, ◌>>=◌, ◌>>◌,
}
use fast_api_scaff.DateTime.{DateTime}
use fast_api_scaff.Worker.Policy.{Floats, JobPolicy}
use fast_api_scaff.Worker.Attempts.{
  FailureReason, invalid_envelope, unknown_job, unsupported_job_version, WorkerError,
  job_definition_error, acknowledge_error, Outcome, ExecutionResult, run_attempts,
}
use fast_api_scaff.Worker.Failures.{FailedJobRecord, WorkerState, Worker, find, save}

-- `MessageEnvelope`
pub record MessageEnvelope : Type 0 where
  pub job_id : ℕ
  pub job_type : Text
  pub job_version : ℕ
  pub payload : Text
  pub enqueued_at : DateTime
  pub correlation_id : Option Text
  pub replay_of : Option ℕ

pub record Delivery : Type 0 where
  pub payload : Text
  pub possibly_redelivered : Bool

-- How `JobTypeResolver.resolve` fails.
pub data ResolutionError : Type 0 where
  unknown_job_error : ResolutionError
  unsupported_job_version_error : ResolutionError
  broken_job_definition : ResolutionError

-- `ExecutableJob`, in a world `W`.
pub record ExecutableJob (floats : Floats) (W : Type 0) : Type 0 where
  pub policy : JobPolicy floats
  pub execute : MessageEnvelope → W → Outcome × W

-- What the executor is given: `EnvelopeJsonCodec.decode`, where `none` is `InvalidMessageError`, the
-- identifiers of `hashlib` and `uuid`, the resolver, `asyncio.sleep`, the database, and
-- `Delivery.acknowledge`, which tells whether it succeeded.
pub record Surroundings (floats : Floats) (W : Type 0) : Type 0 where
  pub decode : Text → Option MessageEnvelope
  pub sha256 : Text → Text
  pub uuid_text : ℕ → Text
  pub uuid5 : Text → Text → Text → ℕ
  pub resolve : Text → ℕ → Result ResolutionError (ExecutableJob floats W)
  pub sleep : floats.Float → W → W
  pub reachable : W → Bool × W
  pub acknowledge : Delivery → W → Bool × W

module _ (floats : Floats) {W : Type 0} (outside : Surroundings floats W) (connection queue : Text)
    (now : DateTime) where
  abbrev pub Execution : Type 0 → Type 0
  Execution A = Action WorkerError (WorkerState W) A

  unfoldable pub acknowledge : Delivery → Execution Unit
  acknowledge delivery s =
      let (done, w) = outside.acknowledge delivery s.rest in
      if done
      then (ok tt, record s { acknowledged = true; rest = w })
      else (err acknowledge_error, record s { rest = w })

  abbrev pub identity : Delivery → Option MessageEnvelope → Text
  identity delivery none = codes "raw:" ++ outside.sha256 delivery.payload
  identity delivery (some message) = outside.uuid_text message.job_id

  -- `failure_id` of `execute`
  unfoldable pub failure_id : Delivery → ℕ
  failure_id delivery =
      outside.uuid5 connection queue (identity delivery (outside.decode delivery.payload))

  abbrev job_id_of : Option MessageEnvelope → Option ℕ
  job_id_of none = none
  job_id_of (some message) = some message.job_id

  abbrev save_failure :
      Delivery
      → Option MessageEnvelope
      → ExecutionResult
      → ℕ
      → Option FailureReason
      → Execution Unit
  save_failure delivery message result id none = pure tt
  save_failure delivery message result id (some reason) = save outside.reachable (record {
    failure_id = id;
    payload = delivery.payload;
    connection = connection;
    queue = queue;
    failed_at = now;
    attempts = result.attempts;
    reason = reason;
    job_id = job_id_of message;
    details = result.details;
  })

  -- `_finish`
  unfoldable pub finish : Delivery → Option MessageEnvelope → ExecutionResult → ℕ → Execution Unit
  unfolding save acknowledge
  finish delivery message result id = do
    save_failure delivery message result id result.failure_reason
    acknowledge delivery

  abbrev not_run : FailureReason → ExecutionResult
  not_run reason = record { attempts = 0; failure_reason = some reason; details = none }

  -- The tries of a job, in the world of the worker.
  unfoldable pub run : ExecutableJob floats W → MessageEnvelope → Execution ExecutionResult
  unfolding run_attempts
  run job message s =
      let (r, w) = run_attempts floats job.policy (job.execute message) outside.sleep s.rest in
      (r, record s { rest = w })

  abbrev result_of :
      MessageEnvelope → Result ResolutionError (ExecutableJob floats W) → Execution ExecutionResult
  result_of message (err unknown_job_error) = pure (not_run unknown_job)
  result_of message (err unsupported_job_version_error) = pure (not_run unsupported_job_version)
  result_of message (err broken_job_definition) = raise job_definition_error
  result_of message (ok job) = run job message

  -- The work on a message that no record of a failure stops.
  unfoldable pub process : Delivery → Option MessageEnvelope → Execution Unit
  unfolding finish run failure_id
  process delivery none = finish delivery none (not_run invalid_envelope) (failure_id delivery)
  process delivery (some message) = do
    result ← result_of message (outside.resolve message.job_type message.job_version)
    finish delivery (some message) result (failure_id delivery)

  abbrev unless_recorded : Delivery → Option FailedJobRecord → Execution Unit
  unless_recorded delivery (some r) = acknowledge delivery
  unless_recorded delivery none = process delivery (outside.decode delivery.payload)

  -- `find` only for a message that may have been delivered before
  abbrev pub recorded : Delivery → Execution (Option FailedJobRecord)
  recorded delivery =
      if delivery.possibly_redelivered
      then find outside.reachable (failure_id delivery)
      else pure none

  -- `execute`
  unfoldable pub execute : Delivery → Execution Unit
  unfolding process find
  execute delivery = do found ← recorded delivery; unless_recorded delivery found
