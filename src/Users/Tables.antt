-- ===== src/Users/Tables.antt =====
-- infrastructure/persistence/models and mapper.py: the two tables, and the way between a row and an
-- aggregate. A row holds the UUID's number for its canonical text.
pub mod Mapper
use fast_api_scaff.Prelude.{
  ℕ, ◌+◌, List, ◌==◌, if◌then◌else◌, Text, codes, text_eq, Result, ok, err, and_then,
}
use fast_api_scaff.DateTime.{DateTime}
use fast_api_scaff.Users.Errors.{Error, value_error}
use fast_api_scaff.Users.Unicode.{Unicode}
use fast_api_scaff.Users.Values.{
  UserStatus, active, disabled, new_username, new_email_address, new_password_hash,
}
use fast_api_scaff.Users.User.{User, rehydrate}
use fast_api_scaff.Users.Session.{UserSession, new_session}

infixl 5 ◌>>=◌
abbrev ◌>>=◌ : {A B : Type 0} → Result Error A → (A → Result Error B) → Result Error B
m >>= f = and_then m f

-- `UserModel`
pub record UserRow : Type 0 where
  pub id : ℕ
  pub username : Text
  pub email : Text
  pub password : Text
  pub status : Text
  pub created_at : DateTime
  pub updated_at : DateTime
  pub version : ℕ

-- `UserSessionModel`
pub record SessionRow : Type 0 where
  pub token_digest : Text
  pub user_id : ℕ
  pub issued_at : DateTime
  pub expires_at : DateTime

pub record Database : Type 0 where
  pub users : List UserRow
  pub sessions : List SessionRow

-- `status.value`
abbrev pub status_value : UserStatus → Text
status_value active = codes "active"
status_value disabled = codes "disabled"

-- `UserStatus(value)`
unfoldable pub status_of : Text → Result Error UserStatus
status_of value =
    if text_eq value (codes "active")
    then ok active
    else if text_eq value (codes "disabled")
    then ok disabled
    else err value_error

unfoldable pub user_to_model : User → UserRow
user_to_model u = record {
  id = u.id;
  username = u.username.value;
  email = u.email.value;
  password = u.password_hash.value;
  status = status_value u.status;
  created_at = u.created_at;
  updated_at = u.updated_at;
  version = u.version;
}

unfoldable pub user_to_domain : Unicode → UserRow → Result Error User
unfolding status_of
user_to_domain unicode model = do
  username ← new_username unicode model.username
  email ← new_email_address unicode model.email
  password_hash ← new_password_hash model.password
  status ← status_of model.status
  rehydrate (record {
    id = model.id;
    username = username;
    email = email;
    password_hash = password_hash;
    status = status;
    created_at = model.created_at;
    updated_at = model.updated_at;
    version = model.version;
  })

-- The row with `user_update_values(user)` set.
unfoldable pub user_update_values : User → UserRow → UserRow
user_update_values u row = record row {
  username = u.username.value;
  email = u.email.value;
  password = u.password_hash.value;
  status = status_value u.status;
  updated_at = u.updated_at;
  version = u.version + 1;
}

-- The row that `SqlAlchemySessionRepository.add` builds, and the entity that `find` restores.
unfoldable pub session_to_model : UserSession → SessionRow
session_to_model s = record {
  token_digest = s.token_digest;
  user_id = s.user_id;
  issued_at = s.issued_at;
  expires_at = s.expires_at;
}

unfoldable pub session_to_domain : SessionRow → Result Error UserSession
session_to_domain model = new_session (record {
  token_digest = model.token_digest;
  user_id = model.user_id;
  issued_at = model.issued_at;
  expires_at = model.expires_at;
})
