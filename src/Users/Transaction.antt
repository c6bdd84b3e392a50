-- ===== src/Users/Transaction.antt =====
-- application/unit_of_work.py and infrastructure/persistence/unit_of_work.py: the transaction of a
-- user use case, over a SQLAlchemy session. The session keeps added rows until the next statement or
-- the commit, which send them first. A failing rollback or close is not modelled.
pub mod Atomic
use fast_api_scaff.Prelude.{
  ℕ, Option, none, some, List, [], ◌∷◌, ◌++◌, Result, ok, err, and_then, Action, ◌>>=◌,
}
use fast_api_scaff.Users.Errors.{Error, DriverError, user_conflict, integrity_error}
use fast_api_scaff.Users.Conflict.{resolve_user_conflict_field}
use fast_api_scaff.Users.Tables.{UserRow, SessionRow, Database}
use fast_api_scaff.Users.Sql.{Constraint, insert_user, insert_session}

-- A row that `session.add` has taken.
pub data Insert : Type 0 where
  user : UserRow → Insert
  session : SessionRow → Insert

-- What every transaction sees, what this one sees, and what it has yet to send.
pub record TxState : Type 0 where
  pub committed : Database
  pub working : Database
  pub pending : List Insert

abbrev pub Tx : Type 0 → Type 0
Tx A = Action Error TxState A

unfoldable pub send : Insert → Database → Result Constraint Database
send (user row) db = insert_user row db
send (session row) db = insert_session row db

unfoldable pub send_all : List Insert → Database → Result Constraint Database
unfolding send
send_all [] db = ok db
send_all (i ∷ rest) db = and_then (send i db) (send_all rest)

unfoldable pub rollback : TxState → TxState
rollback s = record { committed = s.committed; working = s.committed; pending = [] }

-- `_resolve_user_conflict_field` on the way out: an `IntegrityError` about a known unique column
-- becomes a `UserConflictError`, every other exception passes.
unfoldable pub translate : Error → Error
translate (integrity_error error) = elim (resolve_user_conflict_field error) [
  | none ↦ integrity_error error
  | some field ↦ user_conflict field
]
translate error = error

module _ (driver : Constraint → DriverError) where
  abbrev pub sent : TxState → Result Constraint Database → Result Error Unit × TxState
  sent s (ok db) = (ok tt, record s { working = db; pending = [] })
  sent s (err broken) = (err (integrity_error (driver broken)), rollback s)

  -- The pending rows are sent; a broken constraint is the driver's `IntegrityError`.
  unfoldable pub flush : Tx Unit
  unfolding send_all rollback
  flush s = sent s (send_all s.pending s.working)

  abbrev pub ran :
      {A : Type 0} → TxState → Result Constraint (A × Database) → Result Error A × TxState
  ran s (ok (a, db)) = (ok a, record s { working = db })
  ran s (err broken) = (err (integrity_error (driver broken)), s)

  unfoldable pub run : {A : Type 0} → (Database → Result Constraint (A × Database)) → Tx A
  run statement s = ran s (statement s.working)

  -- A statement on the flushed session.
  unfoldable pub execute : {A : Type 0} → (Database → Result Constraint (A × Database)) → Tx A
  unfolding flush run ◌>>=◌
  execute statement = flush >>= λ _. run statement

  unfoldable pub query : {A : Type 0} → (Database → A) → Tx A
  unfolding execute
  query f = execute (λ db. ok (f db, db))

  abbrev pub closed : Result Error Unit × TxState → Result Error Unit × TxState
  closed (ok _, s) = (ok tt, record s { committed = s.working })
  closed (err error, s) = (err (translate error), s)

  -- `commit`: a failing flush is rolled back and translated.
  unfoldable pub commit : Tx Unit
  unfolding flush translate
  commit s = closed (flush s)

-- `session.add`
unfoldable pub add : Insert → Tx Unit
add i s = (ok tt, record s { pending = s.pending ++ (i ∷ []) })

-- Other transactions commit. What this one has written stays written, and what it has yet to send is
-- sent to what they leave.
unfoldable pub others : (Database → Database) → Tx Unit
others env s = (ok tt, record s { committed = env s.committed; working = env s.working })

abbrev pub begin : Database → TxState
begin db = record { committed = db; working = db; pending = [] }

abbrev pub leave : {A : Type 0} → Result Error A → Result Error A
leave (ok a) = ok a
leave (err error) = err (translate error)

-- `async with unit_of_work_factory() as unit_of_work`: what the body has not committed is dropped.
unfoldable pub transaction : {A : Type 0} → Tx A → Database → Result Error A × Database
unfolding translate
transaction body db = let (r, s) = body (begin db) in (leave r, s.committed)
