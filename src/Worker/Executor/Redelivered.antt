-- ===== src/Worker/Executor/Redelivered.antt =====
-- Redeliveries of a message whose failure is recorded.
use fast_api_scaff.Prelude.{
  ℕ, ◌≡◌, refl, ap, ◌∙◌, true, some, List, [], ◌∷◌, Text, Result, ◌>>=◌, arith, Bool-cases, inl,
  inr,
}
use fast_api_scaff.DateTime.{DateTime}
use fast_api_scaff.Worker.Policy.{Floats}
use fast_api_scaff.Worker.Attempts.{WorkerError}
use fast_api_scaff.Worker.Failures.{FailedJobRecord, WorkerState, row_of, find, open_database}
use fast_api_scaff.Worker.Executor.{
  Delivery, ResolutionError, ExecutableJob, Surroundings, acknowledge, failure_id, execute,
}

module _ (floats : Floats) {W : Type 0} (connection queue : Text) where
  -- A message that the queue delivers again at each of these times, with what each execution returns.
  unfoldable pub redeliver :
      Surroundings floats W
      → Delivery
      → List DateTime
      → WorkerState W
      → List (Result WorkerError Unit) × WorkerState W
  redeliver outside d [] s = ([], s)
  redeliver outside d (now ∷ later) s =
      let (result, t) = execute floats outside connection queue now d s in
      let (results, after) = redeliver outside d later t in (result ∷ results, after)

  -- The same worker with other jobs.
  abbrev pub with_jobs :
      Surroundings floats W
      → (Text → ℕ → Result ResolutionError (ExecutableJob floats W))
      → Surroundings floats W
  with_jobs outside resolve = record outside { resolve = resolve }

  module _ (outside : Surroundings floats W)
      (resolve : Text → ℕ → Result ResolutionError (ExecutableJob floats W)) (d : Delivery)
      (again : d.possibly_redelivered ≡ true) where
    execute-recorded :
        (now : DateTime) (s : WorkerState W) (first : FailedJobRecord)
        → row_of (failure_id floats outside connection queue now d) s.failures ≡ some first
        → (execute floats outside connection queue now d s
            ≡ execute floats (with_jobs outside resolve) connection queue now d s)
          × ((execute floats outside connection queue now d s).1.failures ≡ s.failures)
    unfolding execute find open_database acknowledge failure_id ◌>>=◌
    execute-recorded now s first found = elim (Bool-cases (outside.reachable s.rest).0) [
      | inl up ↦ (ground arith, ground arith)
      | inr down ↦ (ground arith, ground arith)
    ]

    -- However often a message is delivered again whose failure is recorded, whether or not the
    -- database answers and the queue takes the acknowledgement: its job never runs, so that with any
    -- other jobs in the worker the results and the effects are the same, and the table of failed jobs
    -- stays as it is.
    pub redeliver-recorded :
        (times : List DateTime) (start : DateTime) (s : WorkerState W) (first : FailedJobRecord)
        → row_of (failure_id floats outside connection queue start d) s.failures ≡ some first
        → (redeliver outside d times s ≡ redeliver (with_jobs outside resolve) d times s)
          × ((redeliver outside d times s).1.failures ≡ s.failures)
    unfolding redeliver failure_id
    redeliver-recorded [] start s first found = (refl, refl)
    redeliver-recorded (now ∷ later) start s first found =
        let (same, kept) = execute-recorded now s first found in
        let (rest, table) =
          redeliver-recorded later start (execute floats outside connection queue now d s).1 first
            (rw kept found) in
        (
          rw (← same) (
              ap
                (λ (more : List (Result WorkerError Unit) × WorkerState W).
                  ((execute floats outside connection queue now d s).0 ∷ more.0, more.1))
                rest),
          table ∙ kept,
        )
