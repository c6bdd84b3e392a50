-- ===== src/Users/Login/Store.antt =====
-- What the second transaction of a login leaves in the database.
use fast_api_scaff.Prelude.{
  ℕ, ◌≡◌, refl, Bool, not, ◌∷◌, arith, ◌==◌, leb, select, any, true, Text, ok, ◌>>=◌, Result-cases,
  inl, inr,
}
use fast_api_scaff.DateTime.{DateTime}
use fast_api_scaff.Users.Errors.{DriverError}
use fast_api_scaff.Users.Unicode.{Unicode}
use fast_api_scaff.Users.User.{User}
use fast_api_scaff.Users.Session.{UserSession}
use fast_api_scaff.Users.Tables.{Database, session_to_model, user_to_domain}
use fast_api_scaff.Users.Sql.{Constraint, first, insert_session, delete_sessions}
use fast_api_scaff.Users.Transaction.{begin, commit, others, execute, query, send_all, flush}
use fast_api_scaff.Users.Repository.{find, to_domain?}
use fast_api_scaff.Users.SessionRepository
use fast_api_scaff.Users.SessionRepository.{remove_expired}
use fast_api_scaff.Users.Crypto.{Crypto}
use fast_api_scaff.Users.LoginAttempts.{LoginAttemptLimiter}
use fast_api_scaff.Users.AuthService.{TxWorld, attempt_in, session_in}
use fast_api_scaff.Users.Login.{Others, open_session, store_session}

module _ (unicode : Unicode) (driver : Constraint → DriverError) where
  pub find-begin :
      (id : ℕ) (db : Database)
      → find unicode driver id (begin db)
        ≡ (to_domain? (user_to_domain unicode) (first (λ row. row.id == id) db.users), begin db)
  unfolding find query execute flush send_all ◌>>=◌
  find-begin id db = refl

-- The expired sessions are gone.
abbrev pub without_expired : DateTime → Database → Database
without_expired now db = record db {
  sessions = select (λ r. not (leb r.expires_at.ticks now.ticks)) db.sessions;
}

-- The new session is there.
abbrev pub with_session : UserSession → Database → Database
with_session s db = record db { sessions = session_to_model s ∷ db.sessions }

-- What the commit of a login finds of the others and of its own deletion.
abbrev pub at_commit : Others → DateTime → Database → Database
at_commit beside now db = beside.before_commit (without_expired now (beside.before_write db))

module _ (unicode : Unicode) (driver : Constraint → DriverError) (crypto : Crypto)
    (limiter : LoginAttemptLimiter) (configured : Bool) (beside : Others) where
  open limiter use {State}

  module _ (identity token : Text) (current : User) (now : DateTime) (ttl : ℕ) (db : Database)
      (l : State) where
    abbrev pub opened : TxWorld State
    opened = record { tx = begin db; attempts = l }

    pub store_session-eq_ok :
        (u : User) (t : TxWorld State)
        → store_session unicode driver crypto limiter configured beside identity token current now
            ttl opened
          ≡ (ok u, t)
        → (s : UserSession) × (open_session (crypto.sha256 token) current now ttl ≡ ok s)
          × (u ≡ current)
          × (t.tx.committed ≡ with_session s (at_commit beside now db))
          × (any (λ row. row.id == s.user_id) (at_commit beside now db).users ≡ true)
    unfolding store_session others ◌>>=◌ session_in attempt_in remove_expired execute flush send_all
        delete_sessions SessionRepository.add commit insert_session
    store_session-eq_ok u t h =
        elim (Result-cases (open_session (crypto.sha256 token) current now ttl)) [
          | inl (s, e) ↦ (s, e, ground arith, ground arith, ground arith)
          | inr (c, e) ↦ ground arith
        ]
