-- ===== src/Worker/Executor/Acknowledged.antt =====
-- `JobExecutor.execute` returns only after the acknowledgement.
use fast_api_scaff.Prelude.{ℕ, ◌≡◌, true, Option, none, some, ok, >>=-eq_ok, arith, Text}
use fast_api_scaff.DateTime.{DateTime}
use fast_api_scaff.Worker.Policy.{Floats}
use fast_api_scaff.Worker.Attempts.{invalid_envelope, ExecutionResult}
use fast_api_scaff.Worker.Failures.{FailedJobRecord, WorkerState}
use fast_api_scaff.Worker.Executor.{
  MessageEnvelope, Delivery, Surroundings, acknowledge, failure_id, save_failure, not_run, finish,
  result_of, process, unless_recorded, recorded, execute,
}

module _ (floats : Floats) {W : Type 0} (outside : Surroundings floats W) (connection queue : Text)
    (now : DateTime) where
  acknowledge-eq_ok :
      (d : Delivery) (u : Unit) (s s' : WorkerState W)
      → acknowledge floats outside connection queue now d s ≡ (ok u, s')
      → s'.acknowledged ≡ true
  unfolding acknowledge
  acknowledge-eq_ok d u s s' h = ground arith

  finish-eq_ok :
      (d : Delivery) (m : Option MessageEnvelope) (r : ExecutionResult) (id : ℕ) (u : Unit)
      (s s' : WorkerState W)
      → finish floats outside connection queue now d m r id s ≡ (ok u, s')
      → s'.acknowledged ≡ true
  unfolding finish
  finish-eq_ok d m r id u s s' h =
      let (v, t, e, k) =
        >>=-eq_ok (save_failure floats outside connection queue now d m r id r.failure_reason)
          (λ _. acknowledge floats outside connection queue now d) s h in
      acknowledge-eq_ok d u t s' k

  process-eq_ok :
      (d : Delivery) (m : Option MessageEnvelope) (u : Unit) (s s' : WorkerState W)
      → process floats outside connection queue now d m s ≡ (ok u, s')
      → s'.acknowledged ≡ true
  unfolding process
  process-eq_ok d none u s s' h =
      finish-eq_ok d none (not_run floats outside connection queue now invalid_envelope)
        (failure_id floats outside connection queue now d) u s s' h
  process-eq_ok d (some m) u s s' h =
      let (r, t, e, k) =
        >>=-eq_ok
          (result_of floats outside connection queue now m
            (outside.resolve m.job_type m.job_version))
          _ s h in
      finish-eq_ok d (some m) r _ u t s' k

  unless_recorded-eq_ok :
      (d : Delivery) (found : Option FailedJobRecord) (u : Unit) (s s' : WorkerState W)
      → unless_recorded floats outside connection queue now d found s ≡ (ok u, s')
      → s'.acknowledged ≡ true
  unless_recorded-eq_ok d none u s s' h = process-eq_ok d (outside.decode d.payload) u s s' h
  unless_recorded-eq_ok d (some r) u s s' h = acknowledge-eq_ok d u s s' h

  -- When `execute` returns, the delivery has been acknowledged.
  pub execute-acknowledged :
      (d : Delivery) (s s' : WorkerState W)
      → execute floats outside connection queue now d s ≡ (ok tt, s')
      → s'.acknowledged ≡ true
  unfolding execute
  execute-acknowledged d s s' h =
      let (found, t, e, k) =
        >>=-eq_ok (recorded floats outside connection queue now d)
          (unless_recorded floats outside connection queue now d) s h in
      unless_recorded-eq_ok d found tt t s' k
