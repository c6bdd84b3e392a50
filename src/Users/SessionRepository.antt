-- ===== src/Users/SessionRepository.antt =====
-- domain/session_repository.py and its SQLAlchemy implementation,
-- infrastructure/persistence/session_repository.py.
use fast_api_scaff.Prelude.{ℕ, Option, ◌==◌, leb, Text, text_eq, ok, lift, ◌>>=◌, ◌>>◌, pure}
use fast_api_scaff.DateTime.{DateTime}
use fast_api_scaff.Users.Errors.{DriverError}
use fast_api_scaff.Users.Session.{UserSession}
use fast_api_scaff.Users.Tables.{session_to_model, session_to_domain}
use fast_api_scaff.Users.Sql.{Constraint, first, delete_sessions}
use fast_api_scaff.Users.Transaction.{Tx, session, execute, query}
use fast_api_scaff.Users.Transaction
use fast_api_scaff.Users.Repository.{to_domain?}

unfoldable pub add : UserSession → Tx Unit
unfolding session_to_model Transaction.add
add s = Transaction.add (session (session_to_model s))

module _ (driver : Constraint → DriverError) where
  unfoldable pub find : Text → Tx (Option UserSession)
  unfolding to_domain? session_to_domain query
  find token_digest = do
    model ← query driver (λ db. first (λ s. text_eq s.token_digest token_digest) db.sessions)
    lift (to_domain? session_to_domain model)

  unfoldable pub remove : Text → Tx Unit
  unfolding execute
  remove token_digest = do
    execute driver (λ db. ok (delete_sessions (λ s. text_eq s.token_digest token_digest) db))
    pure tt

  unfoldable pub remove_for_user : ℕ → Tx ℕ
  unfolding execute
  remove_for_user user_id =
      execute driver (λ db. ok (delete_sessions (λ s. s.user_id == user_id) db))

  -- `expires_at <= now`
  unfoldable pub remove_expired : DateTime → Tx ℕ
  unfolding execute
  remove_expired now =
      execute driver (λ db. ok (delete_sessions (λ s. leb s.expires_at.ticks now.ticks) db))
