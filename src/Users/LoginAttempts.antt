-- ===== src/Users/LoginAttempts.antt =====
-- application/login_attempts.py: the status of a failed login, and the protocol of the limiter. A
-- limiter has a state of its own, outside of every transaction.
use fast_api_scaff.Prelude.{
  ℕ, not, Option, none, some, ◌==◌, if◌then◌else◌, Text, Result, ok, err, Action,
}
use fast_api_scaff.Users.Errors.{Error, value_error, invalid_credentials, login_temporarily_locked}

pub record LoginFailureStatus : Type 0 where
  pub remaining_attempts : ℕ
  pub retry_after_seconds : Option ℕ

-- `LoginFailureStatus.__post_init__`
unfoldable pub new_status : LoginFailureStatus → Result Error LoginFailureStatus
new_status s = elim s.retry_after_seconds [
  | none ↦ if s.remaining_attempts == 0 then err value_error else ok s
  | some seconds ↦
      if seconds == 0
      then err value_error
      else if not (s.remaining_attempts == 0)
      then err value_error
      else ok s
]

-- The constructors of application/auth_errors.py, which check their arguments.
unfoldable pub invalid_credentials_error : Option ℕ → Error
invalid_credentials_error none = invalid_credentials none
invalid_credentials_error (some n) = if n == 0 then value_error else invalid_credentials (some n)

unfoldable pub login_temporarily_locked_error : ℕ → Error
login_temporarily_locked_error n = if n == 0 then value_error else login_temporarily_locked n

-- `LoginAttemptLimiter`
pub record LoginAttemptLimiter : Type 1 where
  pub State : Type 0
  pub retry_after : Text → Action Error State (Option ℕ)
  pub record_failure : Text → Action Error State LoginFailureStatus
  pub clear : Text → Action Error State Unit
