-- ===== src/Users/Login.antt =====
-- `AuthApplicationService.login` of application/auth_service.py.
pub mod Store
pub mod Success
pub mod Session
use fast_api_scaff.Prelude.{
  ℕ, Bool, true, false, not, ◌&&◌, ◌||◌, Option, none, some, if◌then◌else◌, Text, text_eq, Result,
  ok, err, Action, pure, raise, lift, modify, ◌>>=◌, ◌>>◌,
}
use fast_api_scaff.DateTime.{DateTime, add_seconds}
use fast_api_scaff.Users.Errors.{Error, DriverError, overflow_error}
use fast_api_scaff.Users.Unicode.{Unicode}
use fast_api_scaff.Users.Values.{active, Username, PasswordHash, normalize, new_username}
use fast_api_scaff.Users.User.{User}
use fast_api_scaff.Users.Session.{UserSession, new_session}
use fast_api_scaff.Users.Tables.{Database}
use fast_api_scaff.Users.Sql.{Constraint}
use fast_api_scaff.Users.Transaction.{commit, others}
use fast_api_scaff.Users.Repository.{find, find_by_username}
use fast_api_scaff.Users.SessionRepository
use fast_api_scaff.Users.SessionRepository.{remove_expired}
use fast_api_scaff.Users.Crypto.{Crypto, verify_or_dummy}
use fast_api_scaff.Users.LoginAttempts.{LoginAttemptLimiter}
use fast_api_scaff.Users.AuthService.{
  LoginCommand, TokenDto, World, TxWorld, attempt, attempt_in, session_in, on_database,
  login_transaction, same_status, raise_if_locked, reject_credentials, clear_if_configured,
}

abbrev hash_of : Option User → Option PasswordHash
hash_of none = none
hash_of (some u) = some u.password_hash

-- `now + timedelta(seconds=…)` and the constructor of the session
unfoldable pub open_session : Text → User → DateTime → ℕ → Result Error UserSession
unfolding add_seconds new_session
open_session digest u now ttl = elim (add_seconds now ttl) [
  | none ↦ err overflow_error
  | some expires_at ↦
      new_session
        (record { token_digest = digest; user_id = u.id; issued_at = now; expires_at = expires_at })
]

-- What other transactions commit in the one that stores the session: between the second look at the
-- account and the first write, and between that write and the commit.
pub record Others : Type 0 where
  pub before_write : Database → Database
  pub before_commit : Database → Database

-- The account is as it was when its password was verified.
unfoldable pub unchanged : User → User → Bool
unchanged snapshot current =
    same_status current.status active
    && (text_eq current.password_hash.value snapshot.password_hash.value
        && text_eq current.username.value snapshot.username.value)

module _ (unicode : Unicode) (driver : Constraint → DriverError) (crypto : Crypto)
    (limiter : LoginAttemptLimiter) (configured : Bool) (beside : Others) where
  open limiter use {State}

  abbrev pub LoginTx : Type 0 → Type 0
  LoginTx A = Action Error (TxWorld State) A

  abbrev pub Login : Type 0 → Type 0
  Login A = Action Error (World State) A

  -- The writes of a login, once the account has been checked again.
  unfoldable pub store_session : Text → Text → User → DateTime → ℕ → LoginTx User
  unfolding open_session others
  store_session identity token current now ttl = do
    session_in (others beside.before_write)
    session_in (remove_expired driver now)
    session ← lift (open_session (crypto.sha256 token) current now ttl)
    session_in (SessionRepository.add session)
    session_in (others beside.before_commit)
    attempt_in (clear_if_configured limiter configured identity)
    session_in (commit driver)
    pure current

  -- The second transaction after its read.
  unfoldable pub recheck : Text → Text → User → DateTime → ℕ → Option User → LoginTx User
  unfolding store_session unchanged
  recheck identity token snapshot now ttl none =
      attempt_in (reject_credentials limiter configured identity)
  recheck identity token snapshot now ttl (some current) =
      if unchanged snapshot current
      then store_session identity token current now ttl
      else attempt_in (reject_credentials limiter configured identity)

  unfoldable pub second_transaction : Text → Text → User → DateTime → ℕ → LoginTx User
  unfolding recheck
  second_transaction identity token snapshot now ttl = do
    current ← session_in (find unicode driver snapshot.id)
    recheck identity token snapshot now ttl current

  -- What follows the verification of the password.
  unfoldable pub after_verification : Text → Text → DateTime → ℕ → Option User → Bool → Login User
  unfolding second_transaction
  after_verification identity token now ttl none verified =
      attempt (reject_credentials limiter configured identity)
  after_verification identity token now ttl (some snapshot) verified =
      if verified && same_status snapshot.status active
      then login_transaction (second_transaction identity token snapshot now ttl)
      else attempt (reject_credentials limiter configured identity)

  module _ (during : World State → World State) (token : Text) (now : DateTime) (ttl : ℕ) where
    unfoldable pub login_as : Text → Text → Result Error Username → Login User
    unfolding after_verification
    login_as identity password (err e) = do
      lift (verify_or_dummy crypto password none)
      attempt (reject_credentials limiter configured identity)
    login_as identity password (ok username) = do
      snapshot ← on_database (find_by_username unicode driver username)
      modify during
      verified ← lift (verify_or_dummy crypto password (hash_of snapshot))
      after_verification identity token now ttl snapshot verified

    unfoldable pub login : LoginCommand → Login TokenDto
    unfolding login_as
    login command = do
      let identity = normalize unicode command.username
      attempt (raise_if_locked limiter configured identity)
      current ← login_as identity command.password (new_username unicode command.username)
      pure (record { access_token = token; expires_in = ttl; user_id = current.id })
