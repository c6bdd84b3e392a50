-- ===== src/Worker/Executor/Kept.antt =====
-- The table of failed jobs while messages are executed: the first record of a failure stays.
use fast_api_scaff.Prelude.{
  ℕ, ◌≡◌, Bool, Option, none, some, ==_iff, Result, ok, err, ◌>>=◌, Option-cases, inl, inr, arith,
  Text,
}
use fast_api_scaff.Prelude.Rules.{Keeps, keeps_rules, Keeps-pure, Keeps-raise, Keeps-bind}
use fast_api_scaff.DateTime.{DateTime}
use fast_api_scaff.Worker.Policy.{Floats}
use fast_api_scaff.Worker.Attempts.{FailureReason, invalid_envelope, ExecutionResult}
use fast_api_scaff.Worker.Failures.{FailedJobRecord, WorkerState, row_of, open_database, find, save}
use fast_api_scaff.Worker.Executor.{
  MessageEnvelope, Delivery, ResolutionError, unknown_job_error, unsupported_job_version_error,
  broken_job_definition, ExecutableJob, Surroundings, acknowledge, failure_id, save_failure,
  not_run, finish, result_of, run, process, unless_recorded, recorded, execute,
}

module _ {W : Type 0} (reachable : W → Bool × W) where
  -- The row is in the table of failed jobs.
  pub record Has (id : ℕ) (r : FailedJobRecord) (s : WorkerState W) : Type 0 where
    pub at : row_of id s.failures ≡ some r

  Has-save : (id : ℕ) (r first : FailedJobRecord) → Keeps (Has id first) (save reachable r)
  unfolding save open_database find ◌>>=◌
  Has-save id r first = record {
    at = λ s h. record {
      at = elim (Option-cases (row_of r.failure_id s.failures)) [
        | inl e ↦ ground (arith, ==_iff r.failure_id id)
        | inr (other, e) ↦ ground arith
      ];
    };
  }

  Has-find :
      (id : ℕ) (first : FailedJobRecord) (failure : ℕ)
      → Keeps (Has id first) (find reachable failure)
  unfolding find open_database ◌>>=◌
  Has-find id first failure = record { at = λ s h. record { at = ground (arith, h.at) } }

module _ (floats : Floats) {W : Type 0} (outside : Surroundings floats W) (connection queue : Text)
    (now : DateTime) (id : ℕ) (first : FailedJobRecord) where
  Kept-acknowledge :
      (d : Delivery)
      → Keeps (Has outside.reachable id first) (acknowledge floats outside connection queue now d)
  unfolding acknowledge
  Kept-acknowledge d = record { at = λ s h. record { at = ground (arith, h.at) } }

  Kept-save_failure :
      (d : Delivery) (m : Option MessageEnvelope) (r : ExecutionResult) (failure : ℕ)
      (o : Option FailureReason)
      → Keeps
          (Has outside.reachable id first)
          (save_failure floats outside connection queue now d m r failure o)
  Kept-save_failure d m r failure none = Keeps-pure tt
  Kept-save_failure d m r failure (some reason) = Has-save outside.reachable id _ first

  Kept-finish :
      (d : Delivery) (m : Option MessageEnvelope) (r : ExecutionResult) (failure : ℕ)
      → Keeps
          (Has outside.reachable id first)
          (finish floats outside connection queue now d m r failure)
  unfolding finish
  Kept-finish d m r failure =
      Keeps-bind _ _ (Kept-save_failure d m r failure r.failure_reason) (λ _. Kept-acknowledge d)

  Kept-result_of :
      (m : MessageEnvelope) (o : Result ResolutionError (ExecutableJob floats W))
      → Keeps (Has outside.reachable id first) (result_of floats outside connection queue now m o)
  unfolding run
  Kept-result_of m (ok job) = record { at = λ s h. record { at = h.at } }
  Kept-result_of m (err unknown_job_error) = Keeps-pure _
  Kept-result_of m (err unsupported_job_version_error) = Keeps-pure _
  Kept-result_of m (err broken_job_definition) = Keeps-raise _

  Kept-process :
      (d : Delivery) (m : Option MessageEnvelope)
      → Keeps (Has outside.reachable id first) (process floats outside connection queue now d m)
  unfolding process
  Kept-process d none =
      Kept-finish d none (not_run floats outside connection queue now invalid_envelope)
        (failure_id floats outside connection queue now d)
  Kept-process d (some m) =
      Keeps-bind _ _ (Kept-result_of m (outside.resolve m.job_type m.job_version))
        (λ r. Kept-finish d (some m) r (failure_id floats outside connection queue now d))

  Kept-recorded :
      (d : Delivery)
      → Keeps (Has outside.reachable id first) (recorded floats outside connection queue now d)
  Kept-recorded d = search (keeps_rules, Has-find)

  Kept-unless_recorded :
      (d : Delivery) (found : Option FailedJobRecord)
      → Keeps
          (Has outside.reachable id first)
          (unless_recorded floats outside connection queue now d found)
  Kept-unless_recorded d none = Kept-process d _
  Kept-unless_recorded d (some r) = Kept-acknowledge d

  -- A record of a failed job stays as it is, whatever `execute` does with any delivery, and whether it
  -- returns or raises.
  pub execute-keeps_first :
      (d : Delivery) (s : WorkerState W)
      → row_of id s.failures ≡ some first
      → row_of id (execute floats outside connection queue now d s).1.failures ≡ some first
  unfolding execute
  execute-keeps_first d s h =
      ((Keeps-bind _ _ (Kept-recorded d) (Kept-unless_recorded d)).at s (record { at = h })).at
