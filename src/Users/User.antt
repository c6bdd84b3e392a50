-- ===== src/Users/User.antt =====
-- domain/user.py: the user aggregate. A method that mutates returns the new aggregate, or raises
-- before it has written anything. The properties of the class are the fields of the record.
pub mod Valid
pub mod History
use fast_api_scaff.Prelude.{ℕ, ◌+◌, Bool, ltb, if◌then◌else◌, Text, Result, ok, err, and_then}
use fast_api_scaff.DateTime.{DateTime}
use fast_api_scaff.Users.Errors.{Error, invalid_user_data, bad_time, bad_version}
use fast_api_scaff.Users.Unicode.{Unicode}
use fast_api_scaff.Users.Values.{
  Username, EmailAddress, PasswordHash, UserStatus, active, new_username, new_email_address,
}

infixl 5 ◌>>=◌ ◌>>◌
abbrev ◌>>=◌ : {A B : Type 0} → Result Error A → (A → Result Error B) → Result Error B
m >>= f = and_then m f

abbrev ◌>>◌ : {A B : Type 0} → Result Error A → Result Error B → Result Error B
m >> k = m >>= λ _. k

-- The identifier is the UUID's number, which `UserId` wraps.
pub record User : Type 0 where
  pub id : ℕ
  pub username : Username
  pub email : EmailAddress
  pub password_hash : PasswordHash
  pub status : UserStatus
  pub created_at : DateTime
  pub updated_at : DateTime
  pub version : ℕ

-- `_validate_local_datetime`
unfoldable pub validate_local_datetime : DateTime → Result Error Unit
validate_local_datetime value = if value.aware then err (invalid_user_data bad_time) else ok tt

-- `_validate_version`
unfoldable pub validate_version : ℕ → Result Error Unit
validate_version value = if ltb value 1 then err (invalid_user_data bad_version) else ok tt

-- `__post_init__`, and so `rehydrate`. The checks of the fields' types are those of the record.
unfoldable pub rehydrate : User → Result Error User
unfolding validate_local_datetime validate_version
rehydrate u = do
  validate_local_datetime u.created_at
  validate_local_datetime u.updated_at
  validate_version u.version
  ok u

module _ (unicode : Unicode) where
  unfoldable pub create : ℕ → Text → Text → PasswordHash → DateTime → Result Error User
  unfolding rehydrate
  create user_id username email password_hash now = do
    name ← new_username unicode username
    address ← new_email_address unicode email
    rehydrate (record {
      id = user_id;
      username = name;
      email = address;
      password_hash = password_hash;
      status = active;
      created_at = now;
      updated_at = now;
      version = 1;
    })

  unfoldable pub update_profile : User → Text → Text → DateTime → Result Error User
  unfolding validate_local_datetime
  update_profile u username email now = do
    resolved_username ← new_username unicode username
    resolved_email ← new_email_address unicode email
    validate_local_datetime now
    ok (record u { username = resolved_username; email = resolved_email; updated_at = now })

unfoldable pub advance_version : User → User
advance_version u = record u { version = u.version + 1 }

unfoldable pub change_status : User → UserStatus → DateTime → Result Error User
unfolding validate_local_datetime
change_status u status now = do
  validate_local_datetime now
  ok (record u { status = status; updated_at = now })

unfoldable pub reset_password : User → PasswordHash → DateTime → Result Error User
unfolding validate_local_datetime
reset_password u password_hash now = do
  validate_local_datetime now
  ok (record u { password_hash = password_hash; updated_at = now })
