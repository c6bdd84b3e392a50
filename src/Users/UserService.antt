-- ===== src/Users/UserService.antt =====
-- application/service.py: the operations of `UserApplicationService`. The identifier, the salt and
-- the time that a use case draws are arguments.
pub mod Atomic
pub mod Alone
pub mod Revoked
use fast_api_scaff.Prelude.{
  ℕ, none, some, map, Result, pure, lift, raise_if, modify, ◌>>=◌, ◌>>◌, not,
}
use fast_api_scaff.DateTime.{DateTime}
use fast_api_scaff.Users.Errors.{Error, DriverError, user_not_found}
use fast_api_scaff.Users.Unicode.{Unicode}
use fast_api_scaff.Users.Values.{new_username, new_email_address, new_password}
use fast_api_scaff.Users.User
use fast_api_scaff.Users.User.{User}
use fast_api_scaff.Users.Tables.{user_to_model}
use fast_api_scaff.Users.Sql.{Constraint}
use fast_api_scaff.Users.Transaction.{Tx, user, add, commit, others, transaction}
use fast_api_scaff.Users.Repository.{find, find_page, remove}
use fast_api_scaff.Users.SessionRepository.{remove_for_user}
use fast_api_scaff.Users.Crypto.{Crypto, hash}
use fast_api_scaff.Users.Service.{
  CreateUserCommand, UpdateUserCommand, ChangeUserStatusCommand, ResetUserPasswordCommand, UserDto,
  UserPageDto, Surroundings, Service, from_domain, require, ensure_unique_values, ensure_unique,
  update_or_raise, revoke_if_disabled,
}

module _ (unicode : Unicode) (driver : Constraint → DriverError) where
  unfoldable pub get : ℕ → Service UserDto
  unfolding transaction
  get user_id = do
    found ← transaction (find unicode driver user_id)
    u ← lift (require found user_id)
    pure (from_domain u)

  unfoldable pub list : ℕ → ℕ → Service UserPageDto
  unfolding transaction
  list offset limit = do
    (users, total) ← transaction (find_page unicode driver offset limit)
    pure (record { items = map from_domain users; total = total; offset = offset; limit = limit })

  unfoldable pub delete : ℕ → Service Unit
  unfolding transaction
  delete user_id = transaction (do
    removed ← remove driver user_id
    raise_if (not removed) (user_not_found user_id)
    commit driver)

  module _ (around : Surroundings) (now : DateTime) where
    unfoldable pub update : UpdateUserCommand → Service UserDto
    unfolding transaction
    update command = do
      v ← transaction (do
        found ← find unicode driver command.user_id
        u ← lift (require found command.user_id)
        changed ← lift (User.update_profile unicode u command.username command.email now)
        ensure_unique driver changed
        others around.beside
        v ← update_or_raise driver changed
        commit driver
        pure v)
      pure (from_domain v)

    unfoldable pub change_status : ChangeUserStatusCommand → Service UserDto
    unfolding transaction
    change_status command = do
      v ← transaction (do
        found ← find unicode driver command.user_id
        u ← lift (require found command.user_id)
        changed ← lift (User.change_status u command.status now)
        others around.beside
        v ← update_or_raise driver changed
        revoke_if_disabled driver v.status command.user_id
        commit driver
        pure v)
      pure (from_domain v)

    -- The second transaction of `create`.
    unfoldable pub store_new : User → Tx Unit
    store_new u = do
      ensure_unique driver u
      others around.beside
      add (user (user_to_model u))
      commit driver

    module _ (crypto : Crypto) (salt : ℕ) where
      unfoldable pub create : ℕ → CreateUserCommand → Service UserDto
      unfolding transaction store_new
      create new_user_id command = do
        username ← lift (new_username unicode command.username)
        email ← lift (new_email_address unicode command.email)
        password ← lift (new_password command.password)
        transaction (ensure_unique_values driver username email none)
        modify around.meanwhile
        password_hash ← lift (hash crypto salt password)
        u ← lift (User.create unicode new_user_id username.value email.value password_hash now)
        transaction (store_new u)
        pure (from_domain u)

      unfoldable pub reset_password : ResetUserPasswordCommand → Service Unit
      unfolding transaction
      reset_password command = do
        password ← lift (new_password command.password)
        transaction
            (do found ← find unicode driver command.user_id; lift (require found command.user_id))
        modify around.meanwhile
        password_hash ← lift (hash crypto salt password)
        transaction (do
          found ← find unicode driver command.user_id
          u ← lift (require found command.user_id)
          changed ← lift (User.reset_password u password_hash now)
          others around.beside
          v ← update_or_raise driver changed
          remove_for_user driver command.user_id
          commit driver)

-- A call of one of the use cases that write; the first argument of `create_user` is the new
-- identifier.
pub data UseCase : Type 0 where
  create_user : ℕ → CreateUserCommand → UseCase
  update_user : UpdateUserCommand → UseCase
  change_user_status : ChangeUserStatusCommand → UseCase
  reset_user_password : ResetUserPasswordCommand → UseCase
  delete_user : ℕ → UseCase

module _ (unicode : Unicode) (driver : Constraint → DriverError) (around : Surroundings)
    (now : DateTime) (crypto : Crypto) (salt : ℕ) where
  unfoldable pub perform : UseCase → Service Unit
  unfolding create update change_status reset_password delete
  perform (create_user id c) = do create unicode driver around now crypto salt id c; pure tt
  perform (update_user c) = do update unicode driver around now c; pure tt
  perform (change_user_status c) = do change_status unicode driver around now c; pure tt
  perform (reset_user_password c) = reset_password unicode driver around now crypto salt c
  perform (delete_user id) = delete unicode driver id
