-- ===== src/Users/Login/Session.antt =====
-- The token of a login, presented to `AuthApplicationService.current_user`.
use fast_api_scaff.Prelude.{ℕ, ◌≡◌, Bool, if◌then◌else◌, Result, err, ◌==◌, Text, ok}
use fast_api_scaff.DateTime.{DateTime}
use fast_api_scaff.Users.Errors.{Error, DriverError, authentication_required}
use fast_api_scaff.Users.Unicode.{Unicode}
use fast_api_scaff.Users.Values.{active}
use fast_api_scaff.Users.User.{User}
use fast_api_scaff.Users.Tables.{Database}
use fast_api_scaff.Users.Sql.{Constraint, first}
use fast_api_scaff.Users.SessionRepository
use fast_api_scaff.Users.Crypto.{Crypto}
use fast_api_scaff.Users.LoginAttempts.{LoginAttemptLimiter}
use fast_api_scaff.Users.Service.{UserDto, from_domain}
use fast_api_scaff.Users.AuthService.{same_status}
use fast_api_scaff.Users.Login.{Others}

-- What `current_user` answers for the account of a session, as the mapper reads it.
abbrev pub account_answer : Result Error User → Result Error UserDto
account_answer (ok u) =
    if same_status u.status active then ok (from_domain u) else err authentication_required
account_answer (err error) = err error

module _ (unicode : Unicode) (driver : Constraint → DriverError) (crypto : Crypto) where
  module _ (limiter : LoginAttemptLimiter) (configured : Bool) (beside : Others) (token : Text)
      (now : DateTime) (ttl : ℕ) where
    open limiter use {State}

    -- Others leave the account of this number as it is.
    abbrev Kept : ℕ → (Database → Database) → Type 0
    Kept id env =
        (db : Database)
        → first (λ row. row.id == id) (env db).users ≡ first (λ row. row.id == id) db.users
