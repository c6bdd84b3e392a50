-- ===== src/Users/Service.antt =====
-- application/service.py and application/dto.py: the use cases that manage users. What the rest of
-- the system commits at the points where a use case waits is part of the arguments: `meanwhile`
-- while the password is hashed, outside of any transaction, and `beside` between the reads and the
-- first write of a transaction.
pub mod Keeps
use fast_api_scaff.Prelude.{
  ℕ, Bool, Option, none, some, List, map, if◌then◌else◌, Text, Result, ok, err, Action, pure, lift,
  raise, raise_if, modify, ◌>>=◌, ◌>>◌,
}
use fast_api_scaff.DateTime.{DateTime}
use fast_api_scaff.Users.Errors.{
  Error, DriverError, ConflictField, user_not_found, user_conflict, concurrent_user_update,
}
use fast_api_scaff.Users.Errors
use fast_api_scaff.Users.Unicode.{Unicode}
use fast_api_scaff.Users.Values.{
  Username, EmailAddress, UserStatus, active, disabled, new_username, new_email_address,
  new_password,
}
use fast_api_scaff.Users.User.{User, create, update_profile, change_status, reset_password}
use fast_api_scaff.Users.User
use fast_api_scaff.Users.Tables.{Database, user_to_model}
use fast_api_scaff.Users.Sql.{Constraint}
use fast_api_scaff.Users.Transaction.{Tx, user, add, commit, others, transaction}
use fast_api_scaff.Users.Repository.{
  UserUpdateResult, updated, not_found, conflict, find, find_page, exists_by_username,
  exists_by_email, update, remove,
}
use fast_api_scaff.Users.SessionRepository.{remove_for_user}
use fast_api_scaff.Users.Crypto.{Crypto, hash}

pub record CreateUserCommand : Type 0 where
  pub username : Text
  pub email : Text
  pub password : Text

pub record UpdateUserCommand : Type 0 where
  pub user_id : ℕ
  pub username : Text
  pub email : Text

pub record ChangeUserStatusCommand : Type 0 where
  pub user_id : ℕ
  pub status : UserStatus

pub record ResetUserPasswordCommand : Type 0 where
  pub user_id : ℕ
  pub password : Text

pub record UserDto : Type 0 where
  pub id : ℕ
  pub username : Text
  pub email : Text
  pub status : UserStatus
  pub created_at : DateTime
  pub updated_at : DateTime

unfoldable pub from_domain : User → UserDto
from_domain u = record {
  id = u.id;
  username = u.username.value;
  email = u.email.value;
  status = u.status;
  created_at = u.created_at;
  updated_at = u.updated_at;
}

pub record UserPageDto : Type 0 where
  pub items : List UserDto
  pub total : ℕ
  pub offset : ℕ
  pub limit : ℕ

-- What others commit while a use case waits.
pub record Surroundings : Type 0 where
  pub meanwhile : Database → Database
  pub beside : Database → Database

abbrev pub Service : Type 0 → Type 0
Service A = Action Error Database A

-- `_ensure_updated`
unfoldable pub ensure_updated : UserUpdateResult → ℕ → Result Error Unit
ensure_updated updated user_id = ok tt
ensure_updated not_found user_id = err (user_not_found user_id)
ensure_updated conflict user_id = err (concurrent_user_update user_id)

-- `if user is None: raise UserNotFoundError(user_id)`
unfoldable pub require : Option User → ℕ → Result Error User
require none user_id = err (user_not_found user_id)
require (some u) user_id = ok u

module _ (driver : Constraint → DriverError) where
  -- `_ensure_unique_values`
  unfoldable pub ensure_unique_values : Username → EmailAddress → Option ℕ → Tx Unit
  unfolding exists_by_username exists_by_email
  ensure_unique_values username email excluding = do
    name_taken ← exists_by_username driver username excluding
    raise_if name_taken (user_conflict Errors.username)
    email_taken ← exists_by_email driver email excluding
    raise_if email_taken (user_conflict Errors.email)

  -- `_ensure_unique`
  unfoldable pub ensure_unique : User → Tx Unit
  unfolding ensure_unique_values
  ensure_unique u = ensure_unique_values u.username u.email (some u.id)

  -- `_ensure_updated(await users.update(user))`, with the aggregate that it leaves
  unfoldable pub update_or_raise : User → Tx User
  unfolding update ensure_updated
  update_or_raise u = do (result, v) ← update driver u; lift (ensure_updated result u.id); pure v

  -- `if user.status is UserStatus.DISABLED: await sessions.remove_for_user(user_id)`
  unfoldable pub revoke_if_disabled : UserStatus → ℕ → Tx Unit
  unfolding remove_for_user
  revoke_if_disabled active user_id = pure tt
  revoke_if_disabled disabled user_id = do remove_for_user driver user_id; pure tt
