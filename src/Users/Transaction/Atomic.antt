-- ===== src/Users/Transaction/Atomic.antt =====
-- A transaction commits all of its writes or none: what holds of the committed database, and
-- survives the commits of others, holds after a body that raises.
use fast_api_scaff.Prelude.{arith, ◌≡◌, refl, Result, ok, err}
use fast_api_scaff.Prelude.Rules.{Keeps, Fails}
use fast_api_scaff.Users.Errors.{Error, DriverError}
use fast_api_scaff.Users.Tables.{Database}
use fast_api_scaff.Users.Sql.{Constraint}
use fast_api_scaff.Users.Transaction.{
  TxState, Tx, Insert, flush, execute, query, commit, add, others, begin, leave, transaction,
}

module _ (Q : Database → Type 0) where
  -- `Q` holds of the committed database.
  pub record Settled (s : TxState) : Type 0 where
    pub at : Q s.committed

  -- Others keep `Q`.
  pub record Stable (env : Database → Database) : Type 0 where
    pub at : (db : Database) → Q db → Q (env db)

module _ {Q : Database → Type 0} (driver : Constraint → DriverError) where
  pub Keeps-flush : Keeps (Settled Q) (flush driver)
  unfolding flush
  Keeps-flush = record { at = λ s h. ground arith }

  pub Keeps-execute :
      {A : Type 0} (statement : Database → Result Constraint (A × Database))
      → Keeps (Settled Q) (execute driver statement)
  unfolding execute
  Keeps-execute statement = record { at = λ s h. ground arith }

  pub Keeps-query : {A : Type 0} (f : Database → A) → Keeps (Settled Q) (query driver f)
  unfolding query
  Keeps-query f = Keeps-execute (λ db. ok (f db, db))

  pub Fails-commit : Fails (Settled Q) (commit driver)
  unfolding commit
  Fails-commit = record { at = λ s h e q. ground arith }

module _ {Q : Database → Type 0} where
  pub Keeps-add : (i : Insert) → Keeps (Settled Q) (add i)
  unfolding add
  Keeps-add i = record { at = λ s h. record { at = h.at } }

  pub Keeps-others : (env : Database → Database) → Stable Q env → Keeps (Settled Q) (others env)
  unfolding others
  Keeps-others env k = record { at = λ s h. record { at = k.at s.committed h.at } }

  pub Keeps-transaction :
      {A : Type 0} (body : Tx A) → Keeps (Settled Q) body → Keeps Q (transaction body)
  unfolding transaction
  Keeps-transaction body k = record { at = λ db h. (k.at (begin db) (record { at = h })).at }

  pub Fails-transaction :
      {A : Type 0} (body : Tx A) → Fails (Settled Q) body → Fails Q (transaction body)
  unfolding transaction
  Fails-transaction {A} body k = record {
    at = λ db h e q.
        let (r, s) = body (begin db) in go r s (k.at (begin db) (record { at = h })) e q;
  }
    where
      go :
          (r : Result Error A) (s : TxState)
          → ((e : Error) → r ≡ err e → Settled Q s)
          → (e : Error) → leave r ≡ err e
          → Q s.committed
      go (ok a) s h e q = cc
      go (err d) s h e q = (h d refl).at

pub ruleset settled_rules = (
  Keeps-execute, Keeps-query, Fails-commit, Keeps-add, Keeps-others, Keeps-transaction,
  Fails-transaction,
)
