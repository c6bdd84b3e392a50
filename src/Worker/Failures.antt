-- ===== src/Worker/Failures.antt =====
-- app/infrastructure/queue/contracts/failed_store.py and failed/sql/store.py: the table of failed jobs.
use fast_api_scaff.Prelude.{
  ℕ, Bool, not, Option, none, some, List, [], ◌∷◌, ◌==◌, if◌then◌else◌, Text, ok, err, Action, pure,
  raise, ◌>>=◌, select,
}
use fast_api_scaff.DateTime.{DateTime}
use fast_api_scaff.Worker.Attempts.{FailureReason, WorkerError, store_error, ErrorDetails}

pub record FailedJobRecord : Type 0 where
  pub failure_id : ℕ
  pub payload : Text
  pub connection : Text
  pub queue : Text
  pub failed_at : DateTime
  pub attempts : ℕ
  pub reason : FailureReason
  pub job_id : Option ℕ
  pub details : Option ErrorDetails

-- The row with this primary key.
abbrev pub row_of : ℕ → List FailedJobRecord → Option FailedJobRecord
row_of failure_id [] = none
row_of failure_id (r ∷ rows) = if r.failure_id == failure_id then some r else row_of failure_id rows

module _ (W : Type 0) where
  -- The table, whether the message at hand has been acknowledged, and the rest of the world.
  pub record WorkerState : Type 0 where
    pub failures : List FailedJobRecord
    pub acknowledged : Bool
    pub rest : W

-- `reachable` tells whether the database answers.
module _ {W : Type 0} (reachable : W → Bool × W) where
  abbrev pub Worker : Type 0 → Type 0
  Worker A = Action WorkerError (WorkerState W) A

  -- `async with self._databases.session(…)`
  unfoldable pub open_database : Worker Unit
  open_database s =
      let (up, w) = reachable s.rest in
      (if up then ok tt else err store_error, record s { rest = w })

  -- `SqlFailedJobStore.find`
  unfoldable pub find : ℕ → Worker (Option FailedJobRecord)
  unfolding open_database ◌>>=◌
  find failure_id = open_database >>= λ _ s. (ok (row_of failure_id s.failures), s)

  abbrev raise_if_none : Option FailedJobRecord → Worker Unit
  raise_if_none none = raise store_error
  raise_if_none (some r) = pure tt

  -- The insert and the commit, and what follows an `IntegrityError`.
  abbrev insert : FailedJobRecord → Option FailedJobRecord → Worker Unit
  insert r none s = (ok tt, record s { failures = r ∷ s.failures })
  insert r (some first) s = (find r.failure_id >>= raise_if_none) s

  -- `SqlFailedJobStore.save`
  unfoldable pub save : FailedJobRecord → Worker Unit
  unfolding find
  save r = open_database >>= λ _ s. insert r (row_of r.failure_id s.failures) s

  -- `SqlFailedJobStore.delete`
  unfoldable pub delete : ℕ → Worker Unit
  unfolding open_database
  delete failure_id = open_database >>= λ _ s.
      (ok tt, record s { failures = select (λ r. not (r.failure_id == failure_id)) s.failures })
