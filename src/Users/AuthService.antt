-- ===== src/Users/AuthService.antt =====
-- application/auth_service.py, auth_dto.py and session_token.py: login, the current user and logout.
-- The token and the time that a use case draws are arguments, and so is `during`, what the rest of
-- the system does while the password is verified.
use fast_api_scaff.Prelude.{
  ℕ, Bool, true, false, not, ◌&&◌, ◌||◌, Option, none, some, leb, ◌==◌, if◌then◌else◌, Text, length,
  all, Result, ok, err, Action, pure, raise, lift, ◌>>=◌, ◌>>◌,
}
use fast_api_scaff.DateTime.{DateTime}
use fast_api_scaff.Users.Errors.{Error, DriverError, authentication_required}
use fast_api_scaff.Users.Unicode.{Unicode}
use fast_api_scaff.Users.Values.{UserStatus, active, disabled}
use fast_api_scaff.Users.Session.{is_valid}
use fast_api_scaff.Users.Tables.{Database}
use fast_api_scaff.Users.Sql.{Constraint}
use fast_api_scaff.Users.Transaction.{TxState, Tx, begin, leave, translate, commit, transaction}
use fast_api_scaff.Users.Repository.{find}
use fast_api_scaff.Users.SessionRepository
use fast_api_scaff.Users.SessionRepository.{remove_expired}
use fast_api_scaff.Users.Crypto.{Crypto}
use fast_api_scaff.Users.LoginAttempts.{
  LoginFailureStatus, LoginAttemptLimiter, invalid_credentials_error,
  login_temporarily_locked_error,
}
use fast_api_scaff.Users.Service.{UserDto, from_domain}

pub record LoginCommand : Type 0 where
  pub username : Text
  pub password : Text

-- `LoginCommand.__post_init__`
unfoldable pub new_login_command : LoginCommand → Result Error LoginCommand
new_login_command c =
    if not (leb 1 (length c.username) && leb (length c.username) 128)
    then err (invalid_credentials_error none)
    else if not (leb 1 (length c.password) && leb (length c.password) 1024)
    then err (invalid_credentials_error none)
    else ok c

pub record TokenDto : Type 0 where
  pub access_token : Text
  pub expires_in : ℕ
  pub user_id : ℕ

-- `[A-Za-z0-9_-]`
abbrev pub is_token_char : ℕ → Bool
is_token_char c =
    (leb b'A' c && leb c b'Z')
    || ((leb b'a' c && leb c b'z') || ((leb b'0' c && leb c b'9') || (c == b'_' || c == b'-')))

-- `SessionCredential`
unfoldable pub new_credential : Text → Result Error Text
new_credential token =
    if all is_token_char token && length token == 43 then ok token else err authentication_required

-- The database and the limiter's state; inside of a transaction, its session and the limiter's
-- state.
module _ (L : Type 0) where
  pub record World : Type 0 where
    pub db : Database
    pub attempts : L

  pub record TxWorld : Type 0 where
    pub tx : TxState
    pub attempts : L

module _ {L A : Type 0} where
  -- A use of the limiter, outside and inside of a transaction.
  unfoldable pub attempt : Action Error L A → Action Error (World L) A
  attempt m w = let (r, l) = m w.attempts in (r, record w { attempts = l })

  unfoldable pub attempt_in : Action Error L A → Action Error (TxWorld L) A
  attempt_in m w = let (r, l) = m w.attempts in (r, record w { attempts = l })

  unfoldable pub session_in : Tx A → Action Error (TxWorld L) A
  session_in m w = let (r, s) = m w.tx in (r, record w { tx = s })

  -- A transaction on the database alone.
  unfoldable pub on_database : Tx A → Action Error (World L) A
  unfolding transaction
  on_database body w = let (r, d) = transaction body w.db in (r, record w { db = d })

  -- `async with unit_of_work_factory() as uow` around a body that also uses the limiter.
  unfoldable pub login_transaction : Action Error (TxWorld L) A → Action Error (World L) A
  unfolding translate
  login_transaction body w =
      let (r, t) = body (record { tx = begin w.db; attempts = w.attempts }) in
      (leave r, record { db = t.tx.committed; attempts = t.attempts })

abbrev pub same_status : UserStatus → UserStatus → Bool
same_status active active = true
same_status disabled disabled = true
same_status _ _ = false

-- `login_attempts`, where `configured` tells whether it is given.
module _ (limiter : LoginAttemptLimiter) (configured : Bool) where
  open limiter use {State}

  abbrev locked_if : Option ℕ → Action Error State Unit
  locked_if none = pure tt
  locked_if (some seconds) = raise (login_temporarily_locked_error seconds)

  -- `_raise_if_locked`
  unfoldable pub raise_if_locked : Text → Action Error State Unit
  raise_if_locked identity =
      if not configured
      then pure tt
      else do retry_after ← limiter.retry_after identity; locked_if retry_after

  abbrev rejection : LoginFailureStatus → Error
  rejection status = elim status.retry_after_seconds [
    | none ↦ invalid_credentials_error (some status.remaining_attempts)
    | some seconds ↦ login_temporarily_locked_error seconds
  ]

  -- `_reject_credentials`
  unfoldable pub reject_credentials : {A : Type 0} → Text → Action Error State A
  reject_credentials identity =
      if configured
      then (do status ← limiter.record_failure identity; raise (rejection status))
      else raise (invalid_credentials_error none)

  unfoldable pub clear_if_configured : Text → Action Error State Unit
  clear_if_configured identity = if configured then limiter.clear identity else pure tt

module _ (unicode : Unicode) (driver : Constraint → DriverError) (crypto : Crypto) where
  abbrev or_required : {S A : Type 0} → Option A → Action Error S A
  or_required none = raise authentication_required
  or_required (some a) = pure a

  abbrev require_valid : {S : Type 0} → Bool → Action Error S Unit
  require_valid true = pure tt
  require_valid false = raise authentication_required

  unfoldable pub current_user : DateTime → Text → Tx UserDto
  current_user now token = do
    found ← SessionRepository.find driver (crypto.sha256 token)
    session ← or_required found
    valid ← lift (is_valid session now)
    require_valid valid
    owner ← find unicode driver session.user_id
    u ← or_required owner
    require_valid (same_status u.status active)
    pure (from_domain u)

  unfoldable pub logout : Text → Tx Unit
  logout token = do SessionRepository.remove driver (crypto.sha256 token); commit driver

unfoldable pub cleanup_expired_sessions : (Constraint → DriverError) → DateTime → Tx ℕ
cleanup_expired_sessions driver now = do
  removed_count ← remove_expired driver now
  commit driver
  pure removed_count
