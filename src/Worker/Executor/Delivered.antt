-- ===== src/Worker/Executor/Delivered.antt =====
-- No message is acknowledged before its failure is saved.
use fast_api_scaff.Prelude.{
  ℕ, ◌≡◌, refl, ◌⊎◌, inl, inr, Bool, true, false, Option, none, some, ==_refl, Result, ok, err,
  pure, raise, ◌>>=◌, >>=-ok, >>=-err, Result-cases, Option-cases, arith, Text,
}
use fast_api_scaff.DateTime.{DateTime}
use fast_api_scaff.Worker.Policy.{Floats}
use fast_api_scaff.Worker.Attempts.{FailureReason, invalid_envelope, ExecutionResult, run_attempts}
use fast_api_scaff.Worker.Failures.{FailedJobRecord, WorkerState, row_of, open_database, find, save}
use fast_api_scaff.Worker.Executor.{
  MessageEnvelope, Delivery, ResolutionError, unknown_job_error, unsupported_job_version_error,
  broken_job_definition, ExecutableJob, Surroundings, Execution, acknowledge, failure_id,
  save_failure, not_run, finish, result_of, run, process, unless_recorded, recorded, execute,
}

module _ {W : Type 0} (reachable : W → Bool × W) where
  save-eq_ok :
      (r : FailedJobRecord) (u : Unit) (s s' : WorkerState W)
      → save reachable r s ≡ (ok u, s')
      → (first : FailedJobRecord) × (row_of r.failure_id s'.failures ≡ some first)
  unfolding save open_database find ◌>>=◌
  save-eq_ok r u s s' h = elim (Option-cases (row_of r.failure_id s.failures)) [
    | inl e ↦ (r, ground (arith, ==_refl r.failure_id))
    | inr (first, e) ↦ (first, ground arith)
  ]

  save-acknowledged :
      (r : FailedJobRecord) (s : WorkerState W)
      → (save reachable r s).1.acknowledged ≡ s.acknowledged
  unfolding save open_database find ◌>>=◌
  save-acknowledged r s = elim (Option-cases (row_of r.failure_id s.failures)) [
    | inl e ↦ ground arith
    | inr (first, e) ↦ ground arith
  ]

module _ (floats : Floats) {W : Type 0} (outside : Surroundings floats W) (connection queue : Text)
    (now : DateTime) where
  acknowledge-failures :
      (d : Delivery) (s : WorkerState W)
      → (acknowledge floats outside connection queue now d s).1.failures ≡ s.failures
  unfolding acknowledge
  acknowledge-failures d s = ground arith

  -- The tries of the job of the delivery, begun in this world, end with a success.
  abbrev pub Succeeded : Delivery → W → Type 0
  Succeeded d before =
      (m : MessageEnvelope) × (job : ExecutableJob floats W) × (after : W) × (r : ExecutionResult)
      × (outside.decode d.payload ≡ some m)
      × (outside.resolve m.job_type m.job_version ≡ ok job)
      × (run_attempts floats job.policy (job.execute m) outside.sleep before ≡ (ok r, after))
      × (r.failure_reason ≡ none)

  abbrev pub Recorded : ℕ → WorkerState W → Type 0
  Recorded id s = (first : FailedJobRecord) × (row_of id s.failures ≡ some first)

  save_failure-eq_ok :
      (d : Delivery) (m : Option MessageEnvelope) (r : ExecutionResult) (id : ℕ)
      (o : Option FailureReason) (reason : FailureReason) (u : Unit) (s s' : WorkerState W)
      → o ≡ some reason
      → save_failure floats outside connection queue now d m r id o s ≡ (ok u, s')
      → Recorded id s'
  save_failure-eq_ok d m r id none reason u s s' q h = cc
  save_failure-eq_ok d m r id (some other) reason u s s' q h =
      save-eq_ok outside.reachable _ u s s' h

  save_failure-acknowledged :
      (d : Delivery) (m : Option MessageEnvelope) (r : ExecutionResult) (id : ℕ)
      (o : Option FailureReason) (s : WorkerState W)
      → (save_failure floats outside connection queue now d m r id o s).1.acknowledged
        ≡ s.acknowledged
  unfolding pure
  save_failure-acknowledged d m r id none s = refl
  save_failure-acknowledged d m r id (some other) s = save-acknowledged outside.reachable _ s

  -- What is proved of a run from `s` that has acknowledged its message by its end, where the tries
  -- begin in the world `w`.
  abbrev Safe :
      Delivery → W → Execution floats outside connection queue now Unit → WorkerState W → Type 0
  Safe d w m s =
      s.acknowledged ≡ false
      → (m s).1.acknowledged ≡ true
      → Succeeded d w ⊎ Recorded (failure_id floats outside connection queue now d) (m s).1

  finish-Safe :
      (d : Delivery) (m : Option MessageEnvelope) (r : ExecutionResult) (w : W) (s : WorkerState W)
      → (r.failure_reason ≡ none → Succeeded d w)
      → Safe d w
          (finish floats outside connection queue now d m r
            (failure_id floats outside connection queue now d))
          s
  unfolding finish
  finish-Safe d m r w s fine n a =
      let id = failure_id floats outside connection queue now d in
      let saving = save_failure floats outside connection queue now d m r id r.failure_reason in
      let ack = acknowledge floats outside connection queue now d in
      elim (Option-cases r.failure_reason) [
        | inl e ↦ inl (fine e)
        | inr (reason, e) ↦ elim (Result-cases (saving s).0) [
          | inl (u, k) ↦
              let (first, found) =
                save_failure-eq_ok d m r id r.failure_reason reason u s (saving s).1 e
                  (ground arith) in
              let same : (finish floats outside connection queue now d m r id s).1.failures
                  ≡ (saving s).1.failures =
                rw (>>=-ok saving (λ _. ack) s k) (acknowledge-failures d (saving s).1) in
              inr (first, rw same found)
          | inr (c, k) ↦
              let same : (finish floats outside connection queue now d m r id s).1.acknowledged
                  ≡ s.acknowledged =
                rw (>>=-err saving (λ _. ack) s k)
                  (save_failure-acknowledged d m r id r.failure_reason s) in
              absurd (ground arith)
        ]
      ]

  result_of-eq_ok :
      (d : Delivery) (m : MessageEnvelope) (o : Result ResolutionError (ExecutableJob floats W))
      (s t : WorkerState W) (r : ExecutionResult)
      → outside.decode d.payload ≡ some m
      → outside.resolve m.job_type m.job_version ≡ o
      → result_of floats outside connection queue now m o s ≡ (ok r, t)
      → r.failure_reason ≡ none
      → Succeeded d s.rest
  unfolding run pure raise
  result_of-eq_ok d m (ok job) s t r decoded e h fine =
      (m, job, t.rest, r, decoded, e, ground arith, fine)
  result_of-eq_ok d m (err unknown_job_error) s t r decoded e h fine = ground arith
  result_of-eq_ok d m (err unsupported_job_version_error) s t r decoded e h fine = ground arith
  result_of-eq_ok d m (err broken_job_definition) s t r decoded e h fine = ground arith

  result_of-acknowledged :
      (m : MessageEnvelope) (o : Result ResolutionError (ExecutableJob floats W))
      (s : WorkerState W)
      → (result_of floats outside connection queue now m o s).1.acknowledged ≡ s.acknowledged
  unfolding run pure raise
  result_of-acknowledged m (ok job) s = refl
  result_of-acknowledged m (err unknown_job_error) s = refl
  result_of-acknowledged m (err unsupported_job_version_error) s = refl
  result_of-acknowledged m (err broken_job_definition) s = refl

  process-Safe :
      (d : Delivery) (m : Option MessageEnvelope) (s : WorkerState W)
      → outside.decode d.payload ≡ m
      → Safe d s.rest (process floats outside connection queue now d m) s
  unfolding process
  process-Safe d none s decoded n a =
      finish-Safe d none (not_run floats outside connection queue now invalid_envelope) s.rest s
        (λ e. cc) n a
  process-Safe d (some m) s decoded n a =
      let first =
        result_of floats outside connection queue now m
          (outside.resolve m.job_type m.job_version) in
      let next : ExecutionResult → Execution floats outside connection queue now Unit = λ result.
        finish floats outside connection queue now d (some m) result
          (failure_id floats outside connection queue now d) in
      let kept = result_of-acknowledged m (outside.resolve m.job_type m.job_version) s in
      elim (Result-cases (first s).0) [
        | inl (r, e) ↦
            let same = >>=-ok first next s e in
            rw same (
              finish-Safe d (some m) r s.rest (first s).1
                (result_of-eq_ok d m (outside.resolve m.job_type m.job_version) s (first s).1 r
                  decoded refl (ground arith))
                (ground arith) (rw same at a))
        | inr (c, e) ↦ let same = >>=-err first next s e in absurd (ground arith)
      ]

  unless_recorded-Safe :
      (d : Delivery) (found : Option FailedJobRecord) (s : WorkerState W)
      → ((r : FailedJobRecord)
          → found ≡ some r
          → row_of (failure_id floats outside connection queue now d) s.failures ≡ some r)
      → s.acknowledged ≡ false
      → (unless_recorded floats outside connection queue now d found s).1.acknowledged ≡ true
      → Succeeded d s.rest
        ⊎ Recorded
            (failure_id floats outside connection queue now d)
            (unless_recorded floats outside connection queue now d found s).1
  unless_recorded-Safe d none s there n a = process-Safe d (outside.decode d.payload) s refl n a
  unless_recorded-Safe d (some r) s there n a =
      inr (r, rw (acknowledge-failures d s) (there r refl))

  recorded-state :
      (d : Delivery) (s : WorkerState W)
      → ((recorded floats outside connection queue now d s).1.acknowledged ≡ s.acknowledged)
        × ((found : Option FailedJobRecord)
            → (recorded floats outside connection queue now d s).0 ≡ ok found
            → (r : FailedJobRecord) → found ≡ some r
            → row_of
                (failure_id floats outside connection queue now d)
                (recorded floats outside connection queue now d s).1.failures
              ≡ some r)
  unfolding find open_database ◌>>=◌
  recorded-state d s = (ground arith, λ found e r q. ground arith)

  -- A delivery that was not acknowledged before `execute` and is acknowledged after it, whether
  -- it returns or raises: the tries of its job, begun in the world that the look-up of an earlier
  -- failure leaves, have succeeded, or its failure is recorded under its identifier.
  pub execute-safe :
      (d : Delivery) (s : WorkerState W)
      → s.acknowledged ≡ false
      → (execute floats outside connection queue now d s).1.acknowledged ≡ true
      → Succeeded d (recorded floats outside connection queue now d s).1.rest
        ⊎ Recorded
            (failure_id floats outside connection queue now d)
            (execute floats outside connection queue now d s).1
  unfolding execute
  execute-safe d s n a =
      let first = recorded floats outside connection queue now d in
      let next = unless_recorded floats outside connection queue now d in
      let (kept, there) = recorded-state d s in
      elim (Result-cases (first s).0) [
        | inl (found, e) ↦
            let same = >>=-ok first next s e in
            rw same (
              unless_recorded-Safe d found (first s).1 (there found e) (ground arith)
                (rw same at a))
        | inr (c, e) ↦ let same = >>=-err first next s e in absurd (ground arith)
      ]
